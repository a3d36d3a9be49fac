-- ===== src/Terminal/Live.antt =====
-- frontend/src/AuctionTerminal.jsx with the stream of frontend/src/api.js: the effect of lines 48 to
-- 70 opens the stream and turns its callbacks into changes of the screen.
pub mod Refinement
pub mod Rejected
use synora_hackathon.Prelude.{
  ℕ, Bool, Option, none, some, List, [], ◌∷◌, ◌++◌, String, if◌then◌else◌,
}
use synora_hackathon.Js.Number.{Num}
use synora_hackathon.Js.Value.{Value, truthy}
use synora_hackathon.Api.Stream.{
  Stream, Happening, disconnect, Action, send, close, price_update, report, connect, step,
}
use synora_hackathon.Terminal.Screen.{Screen, initial}
use synora_hackathon.Terminal.Machine
use synora_hackathon.Terminal.Machine.{updated, stream_failed, left}

-- The screen, its stream if it has a token, and the frames that were sent, in order.
pub record Live : Type 0 where
  pub screen : Screen
  pub stream : Option Stream
  pub frames : List Value

-- An event of the screen itself, one of the socket, or the end of the screen.
pub data Event : Type 0 where
  page : Machine.Event → Event
  socket : Happening → Event
  unmount : Event

-- `token ? connectAuctionStream(...) : undefined`.
unfoldable pub open_live : Value → Live
unfolding connect
open_live token = record {
  screen = initial;
  stream = if truthy token then some (connect token) else none;
  frames = [];
}

module _ (get_time : Value → Num) (auction_id : String) where
  -- The callbacks that the effect passes, at their actions, and the frames of the others.
  unfoldable pub perform : ℕ → List Action → Live → Live
  perform now [] l = l
  perform now (send frame ∷ acts) l =
      perform now acts (record l { frames = l.frames ++ frame ∷ [] })
  perform now (close code ∷ acts) l = perform now acts l
  perform now (price_update v ∷ acts) l =
      perform now acts
        (record l { screen = Machine.apply get_time auction_id now (updated v) l.screen })
  perform now (report e ∷ acts) l =
      perform now acts
        (record l { screen = Machine.apply get_time auction_id now (stream_failed e) l.screen })

  -- One event of the stream, if there is one.
  unfoldable pub happen : ℕ → Happening → Live → Option Stream → Live
  unfolding perform step
  happen now h l none = l
  happen now h l (some s) =
      let (s', acts) = step s h in perform now acts (record l { stream = some s' })

  -- The clean-up of the effect is `mounted = false; disconnect?.()`.
  unfoldable pub apply : ℕ → Event → Live → Live
  unfolding happen Machine.apply
  apply now (page e) l = record l { screen = Machine.apply get_time auction_id now e l.screen }
  apply now (socket h) l = happen now h l l.stream
  apply now unmount l =
      let l' = record l { screen = Machine.apply get_time auction_id now left l.screen } in
      happen now disconnect l' l'.stream

  unfoldable pub run : List (ℕ × Event) → Live → Live
  run [] l = l
  run ((now, e) ∷ es) l = run es (apply now e l)

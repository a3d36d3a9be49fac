-- ===== src/Terminal/Machine.antt =====
-- frontend/src/AuctionTerminal.jsx as a machine: its effects, timers and handlers are events, which
-- come in any order.
pub mod Closing
use synora_hackathon.Prelude.{ℕ, Bool, true, false, not, List, [], ◌∷◌, String}
use synora_hackathon.Js.Number.{Num}
use synora_hackathon.Js.Value.{Value}
use synora_hackathon.Api.Base.{Error, Result}
use synora_hackathon.Terminal.Amount.{Change, change}
use synora_hackathon.Terminal.Tape.{Filter}
use synora_hackathon.Terminal.Screen.{
  Screen, on_auction, on_update, on_stream_error, leave, tick, begin_bid, finish_bid,
}

pub data Event : Type 0 where
  loaded : Result Value → Event
  updated : Value → Event
  stream_failed : Error → Event
  left ticked : Event
  edited : Change → Event
  bid : Value → Event
  bid_answered : (amount : String) → Result Value → Event
  filtered : Filter → Event
  pause_clicked : Event
  payment_closed : Event

module _ (get_time : Value → Num) (auction_id : String) where
  unfoldable pub apply : ℕ → Event → Screen → Screen
  apply now (loaded r) s = on_auction get_time now r s
  apply now (updated update) s = on_update get_time auction_id now update s
  apply now (stream_failed e) s = on_stream_error e s
  apply now left s = leave s
  apply now ticked s = tick now s
  apply now (edited c) s = record s { amount = change c s.amount }
  apply now (bid token) s = (begin_bid token s).0
  apply now (bid_answered amount r) s = finish_bid amount r s
  apply now (filtered f) s = record s { filter = f }
  apply now pause_clicked s = record s { paused = not s.paused }
  apply now payment_closed s = record s { show_payment = false }

  unfoldable pub run : List (ℕ × Event) → Screen → Screen
  run [] s = s
  run ((now, e) ∷ es) s = run es (apply now e s)

-- ===== src/Terminal/Live/Refinement.antt =====
-- The terminal with its stream, against the machine of the terminal alone.
use synora_hackathon.Prelude.{
  ℕ, ◌≡◌, refl, ap, sym, Bool-cases, inl, inr, ◌∙◌, Bool, true, false, none, some, List, [], ◌∷◌,
  ◌++◌, String, arith, if◌then◌else◌,
}
use synora_hackathon.Js.Number.{Num}
use synora_hackathon.Js.Value.{Value, str, truthy, is_nullish, or_else, member, text_of}
use synora_hackathon.Api.Base.{ok, err, plain_error}
use synora_hackathon.Api.Request.{type_error}
use synora_hackathon.Api.Stream.{
  Stream, Happening, opened, message, closed, is_type, failed, timed_out, disconnect, Action, send,
  close, price_update, report, connect, step,
}
use synora_hackathon.Terminal.Screen.{Screen, initial}
use synora_hackathon.Terminal.Machine
use synora_hackathon.Terminal.Machine.{updated, stream_failed, left}
use synora_hackathon.Terminal.Live.{
  Live, Event, page, socket, unmount, open_live, perform, happen, apply, run,
}

-- The callbacks among the actions, as events of the machine.
abbrev pub callbacks : List Action → List Machine.Event
callbacks [] = []
callbacks (price_update v ∷ acts) = updated v ∷ callbacks acts
callbacks (report e ∷ acts) = stream_failed e ∷ callbacks acts
callbacks (send frame ∷ acts) = callbacks acts
callbacks (close code ∷ acts) = callbacks acts

-- What the terminal hears of an event of the socket: a price update, or an error to show.
abbrev pub callbacks_of : Happening → List Machine.Event
callbacks_of (message (err e)) = stream_failed e ∷ []
callbacks_of (message (ok payload)) =
    if is_nullish payload
    then stream_failed (type_error "type") ∷ []
    else (if is_type "PRICE_UPDATE" payload then updated payload ∷ [] else [])
      ++ (if is_type "AUTH_ERROR" payload
          then stream_failed (
              plain_error (
                text_of
                  (or_else (member "message" payload) (str "WebSocket authentication failed"))))
            ∷ []
          else [])
callbacks_of failed = stream_failed (plain_error "Live bid stream disconnected") ∷ []
callbacks_of _ = []

-- The machine's events behind one event, with a stream or without.
abbrev pub machine_events : Bool → Event → List Machine.Event
machine_events streaming (page e) = e ∷ []
machine_events true (socket h) = callbacks_of h
machine_events false (socket h) = []
machine_events streaming unmount = left ∷ []

abbrev pub at : ℕ → List Machine.Event → List (ℕ × Machine.Event)
at now [] = []
at now (e ∷ es) = (now, e) ∷ at now es

abbrev pub machine_run : Bool → List (ℕ × Event) → List (ℕ × Machine.Event)
machine_run streaming [] = []
machine_run streaming ((now, e) ∷ es) =
    at now (machine_events streaming e) ++ machine_run streaming es

step-callbacks : (s : Stream) (h : Happening) → callbacks (step s h).1 ≡ callbacks_of h
unfolding step
step-callbacks s (message (ok payload)) = ground arith
step-callbacks s (message (err e)) = refl
step-callbacks s timed_out = ground arith
step-callbacks s opened = refl
step-callbacks s closed = refl
step-callbacks s failed = refl
step-callbacks s disconnect = refl

module _ (get_time : Value → Num) (auction_id : String) where
  run-append :
      (es fs : List (ℕ × Machine.Event)) (s : Screen)
      → Machine.run get_time auction_id (es ++ fs) s
        ≡ Machine.run get_time auction_id fs (Machine.run get_time auction_id es s)
  unfolding Machine.run
  run-append [] fs s = refl
  run-append ((now, e) ∷ es) fs s = run-append es fs (Machine.apply get_time auction_id now e s)

  -- Performing the actions is running their callbacks; the stream does not change.
  perform-callbacks :
      (now : ℕ) (acts : List Action) (l : Live)
      → ((perform get_time auction_id now acts l).screen
          ≡ Machine.run get_time auction_id (at now (callbacks acts)) l.screen)
        × ((perform get_time auction_id now acts l).stream ≡ l.stream)
  unfolding perform Machine.run
  perform-callbacks now [] l = (refl, refl)
  perform-callbacks now (send frame ∷ acts) l = perform-callbacks now acts _
  perform-callbacks now (close code ∷ acts) l = perform-callbacks now acts l
  perform-callbacks now (price_update v ∷ acts) l = perform-callbacks now acts _
  perform-callbacks now (report e ∷ acts) l = perform-callbacks now acts _

  -- A screen has its stream for good.
  abbrev Streams : Bool → Live → Type 0
  Streams true l = (s : Stream) × (l.stream ≡ some s)
  Streams false l = l.stream ≡ none

  happen-refines :
      (now : ℕ) (h : Happening) (l : Live) (s : Stream)
      → let l' = happen get_time auction_id now h l (some s) in
        (l'.screen ≡ Machine.run get_time auction_id (at now (callbacks_of h)) l.screen)
        × Streams true l'
  unfolding happen
  happen-refines now h l s =
      let (st, acts) = step s h in
      let (screen, stream) = perform-callbacks now acts (record l { stream = some st }) in
      (
        screen
            ∙ ap (λ es. Machine.run get_time auction_id (at now es) l.screen) (step-callbacks s h),
        (st, stream),
      )

  apply-refines :
      (streaming : Bool) (now : ℕ) (e : Event) (l : Live)
      → Streams streaming l
      → let l' = apply get_time auction_id now e l in
        (l'.screen ≡ Machine.run get_time auction_id (at now (machine_events streaming e)) l.screen)
        × Streams streaming l'
  unfolding apply Machine.run
  apply-refines true now (page e) l h = (refl, h)
  apply-refines false now (page e) l h = (refl, h)
  apply-refines true now (socket e) l (s, h) = rw h (happen-refines now e l s)
  apply-refines false now (socket e) l h = unfold happen in rw h (refl, refl)
  apply-refines true now unmount l (s, h) = rw h (
      happen-refines now disconnect
        (record l { screen = Machine.apply get_time auction_id now left l.screen }) s)
  apply-refines false now unmount l h = unfold happen in rw h (refl, refl)

  run-refines :
      (streaming : Bool) (es : List (ℕ × Event)) (l : Live)
      → Streams streaming l
      → (run get_time auction_id es l).screen
        ≡ Machine.run get_time auction_id (machine_run streaming es) l.screen
  unfolding run Machine.run
  run-refines streaming [] l h = refl
  run-refines streaming ((now, e) ∷ es) l h =
      let (same, streams) = apply-refines streaming now e l h in
      run-refines streaming es (apply get_time auction_id now e l) streams
      ∙ ap (Machine.run get_time auction_id (machine_run streaming es)) same
      ∙ sym (run-append (at now (machine_events streaming e)) (machine_run streaming es) l.screen)

  open_live-Streams : (token : Value) → Streams (truthy token) (open_live token)
  unfolding open_live
  open_live-Streams token = elim (Bool-cases (truthy token)) [
    | inl some_token ↦ rw some_token (connect token, refl)
    | inr no_token ↦ rw no_token refl
  ]

  -- The terminal with its stream does what the terminal alone does on the events that the stream
  -- makes of the socket's: price updates and errors with a token, and nothing without one.
  pub run-open_live :
      (token : Value) (es : List (ℕ × Event))
      → (run get_time auction_id es (open_live token)).screen
        ≡ Machine.run get_time auction_id (machine_run (truthy token) es) initial
  unfolding open_live
  run-open_live token es = run-refines (truthy token) es (open_live token) (open_live-Streams token)

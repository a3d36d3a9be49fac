-- ===== src/Api/Stream/Laws.antt =====
-- What the stream of frontend/src/api.js does over a whole run of the browser's events.
use synora_hackathon.Prelude.{
  ◌≡◌, refl, ap, Bool, true, false, not, ◌&&◌, ◌||◌, some, List, [], ◌∷◌, ◌++◌, String, arith,
  if◌then◌else◌,
}
use synora_hackathon.Js.Value.{Value, is_nullish}
use synora_hackathon.Api.Base.{ok, err}
use synora_hackathon.Api.Stream.{
  Stream, Happening, opened, message, closed, timed_out, disconnect, Action, send, close,
  price_update, report, connect, auth_frame, is_type, step, run,
}

-- A message that is an object of the given type.
abbrev pub is_message : String → Value → Bool
is_message name payload = not (is_nullish payload) && is_type name payload

-- What ends the wait of three seconds.
abbrev pub stops : Happening → Bool
stops (message (ok payload)) = is_message "AUTH_SUCCESS" payload
stops closed = true
stops timed_out = true
stops disconnect = true
stops _ = false

abbrev pub any_stops : List Happening → Bool
any_stops [] = false
any_stops (e ∷ es) = stops e || any_stops es

step-timer : (s : Stream) (e : Happening) → (step s e).0.timer_set ≡ (s.timer_set && not (stops e))
unfolding step
step-timer s (message (ok payload)) = ground arith
step-timer s (message (err e)) = ground arith
step-timer s e = ground arith

run-timer :
    (s : Stream) (es : List Happening)
    → (run s es).0.timer_set ≡ (s.timer_set && not (any_stops es))
unfolding run
run-timer s [] = ground arith
run-timer s (e ∷ es) = ground (arith, step-timer s e, run-timer (step s e).0 es)

-- When three seconds have passed, the client closes the socket with 1008 exactly if until then the
-- server has not confirmed the token, the socket has not closed and the caller has not left.
pub run-timed_out :
    (token : Value) (es : List Happening)
    → (step (run (connect token) es).0 timed_out).1
      ≡ (if any_stops es then [] else close (some 1008) ∷ [])
unfolding step connect
run-timed_out token es = ground (arith, run-timer (connect token) es)

-- What the caller is given, and what the server is sent.
abbrev pub updates : List Action → List Value
updates [] = []
updates (price_update v ∷ acts) = v ∷ updates acts
updates (_ ∷ acts) = updates acts

abbrev pub frames : List Action → List Value
frames [] = []
frames (send v ∷ acts) = v ∷ frames acts
frames (_ ∷ acts) = frames acts

-- The price updates among the messages, and a frame for each opening.
abbrev pub updates_of : Happening → List Value
updates_of (message (ok payload)) = if is_message "PRICE_UPDATE" payload then payload ∷ [] else []
updates_of _ = []

abbrev pub received : List Happening → List Value
received [] = []
received (e ∷ es) = updates_of e ++ received es

abbrev pub openings : Value → List Happening → List Value
openings frame [] = []
openings frame (opened ∷ es) = frame ∷ openings frame es
openings frame (_ ∷ es) = openings frame es

updates-append : (a b : List Action) → updates (a ++ b) ≡ updates a ++ updates b
updates-append [] b = refl
updates-append (price_update v ∷ a) b = ap (λ l. v ∷ l) (updates-append a b)
updates-append (send v ∷ a) b = updates-append a b
updates-append (close c ∷ a) b = updates-append a b
updates-append (report e ∷ a) b = updates-append a b

step-updates : (s : Stream) (e : Happening) → updates (step s e).1 ≡ updates_of e
unfolding step
step-updates s (message (ok payload)) = ground arith
step-updates s (message (err e)) = ground arith
step-updates s e = ground arith

run-updates : (s : Stream) (es : List Happening) → updates (run s es).1 ≡ received es
unfolding run
run-updates s [] = refl
run-updates s (e ∷ es) = rw (updates-append, step-updates s e, run-updates (step s e).0 es) (refl)

frames-append : (a b : List Action) → frames (a ++ b) ≡ frames a ++ frames b
frames-append [] b = refl
frames-append (send v ∷ a) b = ap (λ l. v ∷ l) (frames-append a b)
frames-append (price_update v ∷ a) b = frames-append a b
frames-append (close c ∷ a) b = frames-append a b
frames-append (report e ∷ a) b = frames-append a b

step-frames :
    (s : Stream) (e : Happening) (rest : List Value) (es : List Happening)
    → rest ≡ openings (auth_frame s.token) es
    → frames (step s e).1 ++ rest ≡ openings (auth_frame s.token) (e ∷ es)
unfolding step
step-frames s (message (ok payload)) rest es h = ground arith
step-frames s (message (err e)) rest es h = ground arith
step-frames s e rest es h = ground arith

step-token : (s : Stream) (e : Happening) → (step s e).0.token ≡ s.token
unfolding step
step-token s (message (ok payload)) = ground arith
step-token s (message (err e)) = ground arith
step-token s e = ground arith

run-frames :
    (s : Stream) (es : List Happening) → frames (run s es).1 ≡ openings (auth_frame s.token) es
unfolding run
run-frames s [] = refl
run-frames s (e ∷ es) = rw frames-append (
    step-frames s e (frames (run (step s e).0 es).1) es
      (rw (run-frames (step s e).0 es, step-token s e) (refl)))

-- The caller is given the messages of type PRICE_UPDATE, all of them, unchanged and in order, and
-- the server is sent the frame with the token each time the socket opens, and nothing else.
pub run-relays :
    (s : Stream) (es : List Happening)
    → (updates (run s es).1 ≡ received es)
      × (frames (run s es).1 ≡ openings (auth_frame s.token) es)
run-relays s es = (run-updates s es, run-frames s es)

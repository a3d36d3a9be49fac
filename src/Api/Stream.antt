-- ===== src/Api/Stream.antt =====
-- frontend/src/api.js, lines 155 to 174: the stream of price updates. The socket and the callbacks
-- of the caller are what the returned actions are for; the browser's events are the argument.
pub mod Laws
use synora_hackathon.Prelude.{
  ℕ, Bool, true, false, Option, none, some, List, [], ◌∷◌, ◌++◌, String, if◌then◌else◌,
}
use synora_hackathon.Js.Value.{
  Value, str, obj, end, field, or_else, member, is_nullish, strict_eq, text_of,
}
use synora_hackathon.Api.Request.{type_error}
use synora_hackathon.Api.Base.{Error, plain_error, Result, ok, err}

-- The socket as its listeners see it: the timer of three seconds, and whether they are still there.
pub record Stream : Type 0 where
  pub token : Value
  pub timer_set : Bool
  pub is_closed : Bool

pub data Happening : Type 0 where
  opened : Happening
  message : Result Value → Happening
  closed failed : Happening
  timed_out : Happening
  disconnect : Happening

-- What the client does: send a frame, close the socket (with a code, from the timer), and call back.
pub data Action : Type 0 where
  send : Value → Action
  close : Option ℕ → Action
  price_update : Value → Action
  report : Error → Action

unfoldable pub connect : Value → Stream
connect token = record { token = token; timer_set = true; is_closed = false }

abbrev pub auth_frame : Value → Value
auth_frame token = obj (field "type" (str "auth") (field "token" token end))

abbrev pub is_type : String → Value → Bool
is_type name payload = strict_eq (member "type" payload) (str name)

abbrev when : Bool → Action → List Action
when true a = a ∷ []
when false a = []

-- The listener of `message`, on what `JSON.parse` makes of the text; a parsed `null` has no `type`.
abbrev pub on_message : Result Value → Stream → Stream × List Action
on_message (err e) s = (s, report e ∷ [])
on_message (ok payload) s = if is_nullish payload then (s, report (type_error "type") ∷ []) else (
  (if is_type "AUTH_SUCCESS" payload then record s { timer_set = false } else s),
  when (is_type "PRICE_UPDATE" payload) (price_update payload)
      ++ when (is_type "AUTH_ERROR" payload) (
          report (
            plain_error (
              text_of
                (or_else (member "message" payload) (str "WebSocket authentication failed"))))),
)

-- One event. The timer runs out only while it is set.
unfoldable pub step : Stream → Happening → Stream × List Action
step s opened = (s, send (auth_frame s.token) ∷ [])
step s (message payload) = on_message payload s
step s closed = (record s { timer_set = false; is_closed = true }, [])
step s failed = (s, report (plain_error "Live bid stream disconnected") ∷ [])
step s timed_out =
    if s.timer_set then (record s { timer_set = false }, close (some 1008) ∷ []) else (s, [])
step s disconnect = (record s { timer_set = false }, close none ∷ [])

unfoldable pub run : Stream → List Happening → Stream × List Action
run s [] = (s, [])
run s (e ∷ es) = let (s', now) = step s e in let (s'', later) = run s' es in (s'', now ++ later)

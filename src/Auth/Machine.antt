-- ===== src/Auth/Machine.antt =====
-- frontend/src/AuthScreen.jsx as a machine: each handler, timer, effect and callback is an event, and
-- the events come in any order. A submitted form is answered while `pending` holds the number of
-- attempts that its handler was rendered with: one at a time, since the form is busy until its answer.
pub mod Sync
pub mod Lockout
pub mod Attempts
pub mod Guesses
use synora_hackathon.Prelude.{
  ℕ, Bool, not, Option, none, some, List, [], ◌∷◌, String, if◌then◌else◌,
}
use synora_hackathon.Js.Number.{Num}
use synora_hackathon.Js.Value.{Value}
use synora_hackathon.Api.Base.{Result}
use synora_hackathon.Auth.Screen.{
  Mode, Screen, Local, open_screen, switch_mode, expire_toast, tick_lockout,
}
use synora_hackathon.Auth.Login.{Keys, Form, begin_login, finish_login, handle_register}
use synora_hackathon.Auth.Captcha.{
  Loaded, start_turnstile, finish_turnstile, on_verified, on_expired, on_timed_out,
  on_captcha_error, unmount_turnstile,
}
use synora_hackathon.Auth.Google.{
  Initialised, start_google, finish_google, begin_google_login, finish_google_login,
  on_google_error, unmount_google,
}

pub record Machine : Type 0 where
  pub screen : Screen
  pub pending : Option Num

pub data Event : Type 0 where
  submit : (rendered : ℕ) → Form → Event
  answer : Result Value → Event
  register : (rendered : ℕ) → Form → Event
  switch : Mode → Event
  password_typed : String → Event
  eye_clicked confirm_eye_clicked : Event
  toast_over tick : Event
  mount_turnstile : (host : Bool) → Event
  turnstile_script : (cancelled : Bool) (host : Bool) → Loaded → Event
  verified : String → Event
  expired timed_out : Event
  captcha_error : (cancelled : Bool) → Event
  unmount : Event
  mount_google : Event
  google_script : (cancelled : Bool) → Initialised → Event
  google_response : Value → Event
  google_answer : Result Value → Event
  google_error : (cancelled : Bool) → Value → Event
  leave_google : Event

abbrev on_screen : (Screen → Screen) → Machine → Machine
on_screen f m = record m { screen = f m.screen }

abbrev answered : ℕ → Result Value → Option Num → Machine → Machine
answered now r none m = m
answered now r (some attempts) m = record m {
  screen = finish_login now attempts r m.screen;
  pending = none;
}

module _ (keys : Keys) (now : ℕ) where
  unfoldable pub apply : Event → Machine → Machine
  apply (submit rendered form) m =
      let (s, sent) = begin_login keys rendered now form m.screen in
      record m {
        screen = s;
        pending = elim sent [ none ↦ m.pending | some c ↦ some m.screen.attempts ];
      }
  apply (answer r) m = answered now r m.pending m
  apply (register rendered form) m = on_screen (handle_register rendered form) m
  apply (switch mode) m = on_screen (switch_mode mode) m
  apply (password_typed text) m = on_screen (λ s. record s { password = text }) m
  apply eye_clicked m = on_screen (λ s. record s { show_password = not s.show_password }) m
  apply confirm_eye_clicked m = on_screen (λ s. record s { show_confirm = not s.show_confirm }) m
  apply toast_over m = on_screen expire_toast m
  apply tick m = on_screen (tick_lockout now) m
  apply (mount_turnstile host) m = on_screen (λ s. (start_turnstile keys.site_key host s).0) m
  apply (turnstile_script cancelled host loaded) m =
      on_screen (finish_turnstile cancelled host loaded) m
  apply (verified token) m = on_screen (on_verified token) m
  apply expired m = on_screen on_expired m
  apply timed_out m = on_screen on_timed_out m
  apply (captcha_error cancelled) m = on_screen (on_captcha_error cancelled) m
  apply unmount m = on_screen unmount_turnstile m
  apply mount_google m = on_screen (λ s. (start_google keys.client_id s).0) m
  apply (google_script cancelled loaded) m = on_screen (finish_google cancelled loaded) m
  apply (google_response response) m = on_screen (λ s. (begin_google_login response s).0) m
  apply (google_answer r) m =
      on_screen (λ s. if s.google_submitting then finish_google_login r s else s) m
  apply (google_error cancelled e) m = on_screen (on_google_error cancelled e) m
  apply leave_google m = on_screen unmount_google m

-- The events with their times, in order.
unfoldable pub run : Keys → List (ℕ × Event) → Machine → Machine
run keys [] m = m
run keys ((now, e) ∷ es) m = run keys es (apply keys now e m)

-- The screen as it opens, with nothing pending.
abbrev pub opened : ℕ → Local → Machine
opened now l = record { screen = open_screen now l; pending = none }

-- ===== src/Auth/View/Submit.antt =====
-- The submit button of the sign-in form, against what `handleLogin` does.
use synora_hackathon.Prelude.{ℕ, ◌<◌, ◌≡◌, ◌↔◌, true, false, none, some, List, arith, All}
use synora_hackathon.Js.Number.{pos, le}
use synora_hackathon.Js.Text.{is_empty}
use synora_hackathon.Auth.Screen.{Screen, is_locked, max_attempts}
use synora_hackathon.Auth.Validate.{validate_email, validate_password}
use synora_hackathon.Auth.Login.{Keys, Form, trimmed, text_or_empty, begin_login}
use synora_hackathon.Auth.LockClock.{lockout_clock}
use synora_hackathon.Auth.Machine.{Machine, Event, run}
use synora_hackathon.Auth.Machine.Attempts.{sent, begin_login_iff}
use synora_hackathon.Auth.Machine.Lockout.{IsQuiet, run-HasLock}
use synora_hackathon.Auth.View.Login.{lockout_card, submit_button, login_footer, login_form}

-- What `handleLogin` checks of the form alone.
pub record IsFilled (form : Form) : Type 0 where
  pub has_email : is_empty (trimmed form.email) ≡ false
  pub valid_email : validate_email (trimmed form.email) ≡ true
  pub valid_password : validate_password (text_or_empty form.password) ≡ true

-- With a CAPTCHA key, no loading widget, attempts left and a form that is filled in properly, the
-- page offers an enabled submit button exactly when `handleLogin`, run at once, sends the form.
pub submit_button_iff :
    (keys : Keys) (now later : ℕ) (form : Form) (s : Screen)
    → is_empty keys.site_key ≡ false
    → s.captcha_loading ≡ false
    → le (pos max_attempts) s.attempts ≡ false
    → IsFilled form
    → (login_footer keys now s ≡ submit_button false false "ACCESS TERMINAL")
      ↔ ((begin_login keys now later form s).1 ≡ some (sent form s))
unfolding login_footer
submit_button_iff keys now later form s k l a f =
    ground (arith, begin_login_iff keys now later form s (sent form s))

locked_form :
    (keys : Keys) (now : ℕ) (s : Screen)
    → is_locked now s ≡ true
    → let f = login_form keys now s in
      (f.footer ≡ lockout_card (lockout_clock now s))
      × (f.email.disabled ≡ true)
      × (f.password.disabled ≡ true)
      × (f.password_eye.disabled ≡ true)
unfolding login_form login_footer
locked_form keys now s h = ground arith

locked_before :
    (now ends : ℕ) (s : Screen) → s.lockout_ends ≡ pos ends → now < ends → is_locked now s ≡ true
locked_before now ends s h l = ground arith

-- Through a whole lockout, whatever happens but a sign-in with Google, the form for signing in has its
-- fields disabled and the clock of the lockout in the place of the submit button.
pub run-locked_form :
    (keys : Keys) (ends now : ℕ) (es : List (ℕ × Event)) (m : Machine)
    → m.screen.lockout_ends ≡ pos ends
    → m.pending ≡ none
    → All (IsQuiet ends) es
    → now < ends
    → let s = (run keys es m).screen in
      let f = login_form keys now s in
      (f.footer ≡ lockout_card (lockout_clock now s))
      × (f.email.disabled ≡ true)
      × (f.password.disabled ≡ true)
      × (f.password_eye.disabled ≡ true)
run-locked_form keys ends now es m h p q l =
    let (e, none_pending) = run-HasLock keys ends es m h p q in
    let s = (run keys es m).screen in locked_form keys now s (locked_before now ends s e l)

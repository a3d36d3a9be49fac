-- ===== src/Auth/Login/Register.antt =====
-- The registration form, which never registers.
use synora_hackathon.Prelude.{ℕ, ◌≡◌, ◌↔◌, true, false, arith, str_eq}
use synora_hackathon.Js.Text.{is_empty}
use synora_hackathon.Auth.Screen.{Screen, error, info, is_locked, is_busy}
use synora_hackathon.Auth.Validate.{validate_email, validate_password}
use synora_hackathon.Auth.Validate.Given.{has_email, has_password}
use synora_hackathon.Auth.Login.{Form, trimmed, text_or_empty, handle_register}

-- What `handleRegister` checks.
pub record IsRegistration (form : Form) : Type 0 where
  pub valid_email : validate_email (trimmed form.email) ≡ true
  pub valid_password : validate_password (text_or_empty form.password) ≡ true
  pub confirmed : str_eq (text_or_empty form.password) (text_or_empty form.confirm_password) ≡ true
  pub accepted : is_empty (text_or_empty form.terms) ≡ false

-- Registering never signs in, counts, locks or asks the CAPTCHA again: only the messages change. On
-- a free form without a message, the one that registration is unavailable is shown exactly for a
-- valid e-mail, a valid password that is confirmed, and accepted terms.
pub handle_register-outcome :
    (rendered : ℕ) (form : Form) (s : Screen)
    → is_locked rendered s ≡ false
    → is_busy s ≡ false
    → s.toast_type ≡ error
    → let s' = handle_register rendered form s in
      (s' ≡ record s { notice = s'.notice; toast = s'.toast; toast_type = s'.toast_type })
      × ((s'.toast_type ≡ info) ↔ IsRegistration form)
unfolding handle_register
handle_register-outcome rendered form s u b t =
    ground (arith, has_email (trimmed form.email), has_password (text_or_empty form.password))

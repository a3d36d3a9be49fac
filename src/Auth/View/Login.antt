-- ===== src/Auth/View/Login.antt =====
-- frontend/src/AuthScreen.jsx, lines 592 to 691: the form for signing in.
use synora_hackathon.Prelude.{ℕ, Bool, not, ◌&&◌, ◌||◌, Option, String, if◌then◌else◌}
use synora_hackathon.Js.Text.{is_empty}
use synora_hackathon.Auth.Screen.{Screen, is_locked, is_busy}
use synora_hackathon.Auth.Captcha.{captcha_blocking}
use synora_hackathon.Auth.Login.{Keys}
use synora_hackathon.Auth.LockClock.{lockout_clock}
use synora_hackathon.Auth.View.Controls.{Control, Eye, is_invalid, password_type, eye, banner}

-- Below the fields: the card of the lockout with its clock, or the submit button.
pub data Footer : Type 0 where
  lockout_card : (clock : String) → Footer
  submit_button : (disabled : Bool) (spinner : Bool) (label : String) → Footer

pub record LoginForm : Type 0 where
  pub google_unset : Bool
  pub google_spinner : Bool
  pub email : Control
  pub password : Control
  pub password_eye : Eye
  pub captcha_spinner : Bool
  pub captcha_unset : Bool
  pub captcha_status : String
  pub footer : Footer
  pub feedback : Option String
  pub to_register_disabled : Bool

abbrev captcha_text : Screen → String
captcha_text s =
    if s.captcha_loading
    then "LOADING CAPTCHA..."
    else if s.captcha_ready
    then "✓ CAPTCHA VERIFIED"
    else "SECURED BY CLOUDFLARE TURNSTILE"

-- `submitLabel`, or the label of the idle button.
abbrev submit_text : Screen → String
submit_text s = if s.submitting then "AUTHENTICATING..." else "ACCESS TERMINAL"

unfoldable pub login_footer : Keys → ℕ → Screen → Footer
unfolding lockout_clock
login_footer keys now s =
    if is_locked now s
    then lockout_card (lockout_clock now s)
    else submit_button (is_busy s || captcha_blocking keys.site_key s) s.submitting (submit_text s)

unfoldable pub login_form : Keys → ℕ → Screen → LoginForm
unfolding login_footer is_invalid
login_form keys now s =
    let held = is_locked now s || is_busy s in
    record {
      google_unset = is_empty keys.client_id && not s.google_loading;
      google_spinner = s.google_loading;
      email = record {
        name = "email";
        type = "email";
        disabled = held;
        invalid = is_invalid "email" s;
      };
      password = record {
        name = "password";
        type = password_type s.show_password;
        disabled = held;
        invalid = is_invalid "password" s;
      };
      password_eye = eye "password" held s.show_password;
      captcha_spinner = s.captcha_loading;
      captcha_unset = is_empty keys.site_key;
      captcha_status = captcha_text s;
      footer = login_footer keys now s;
      feedback = banner s;
      to_register_disabled = is_busy s;
    }

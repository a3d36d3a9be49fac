-- ===== src/Auth/Login.antt =====
-- frontend/src/AuthScreen.jsx, lines 439 to 529: `handleLogin`, up to the request and after it, and
-- lines 531 to 565: `handleRegister`.
pub mod Success
pub mod Register
use Prim.Native.String.{◌++◌}
use synora_hackathon.Prelude.{
  ℕ, Bool, true, false, not, ◌||◌, Option, none, some, String, str_eq, if◌then◌else◌,
}
use synora_hackathon.Js.Number.{Num, pos, add, sub, le}
use synora_hackathon.Js.Text.{is_empty, trim, includes_lower}
use synora_hackathon.Js.Decimal.{decimal, text_of_num}
use synora_hackathon.Js.Value.{Value}
use synora_hackathon.Api.Base.{Error, Result, ok, err, Store, Writer, Network}
use synora_hackathon.Api.Request
use synora_hackathon.Auth.Screen.{
  Screen, error, info, max_attempts, lockout_duration, is_locked, is_busy, show_feedback,
  clear_feedback, reset_turnstile, complete_login,
}
use synora_hackathon.Auth.Describe.{has_status, has_code, plural, describe_auth_error}
use synora_hackathon.Auth.Validate.{validate_email, validate_password}

-- The two settings of the build, trimmed: VITE_TURNSTILE_SITE_KEY and VITE_GOOGLE_CLIENT_ID.
pub record Keys : Type 0 where
  pub site_key : String
  pub client_id : String

-- The fields of the forms, as `FormData` gives them; `none` is `null`.
pub record Form : Type 0 where
  pub email : Option String
  pub password : Option String
  pub confirm_password : Option String
  pub terms : Option String

-- The arguments of `login`.
pub record Credentials : Type 0 where
  pub email : String
  pub password : String
  pub turnstile_token : String

unfoldable pub text_or_empty : Option String → String
text_or_empty none = ""
text_or_empty (some s) = s

unfoldable pub trimmed : Option String → String
trimmed none = ""
trimmed (some s) = trim s

abbrev refuse : String → Screen → Screen × Option Credentials
refuse message s = (show_feedback message false error s, none)

abbrev pub lock : ℕ → Screen → Screen
lock now s =
    let ends = add (pos now) (pos lockout_duration) in
    record s {
      lockout_ends = ends;
      local = record s.local { lockout_ends = some (text_of_num ends) };
    }

-- The message of the first check that fails, in the order of `handleLogin`.
unfoldable pub login_refusal : Keys → Form → Screen → Option String
login_refusal keys form s =
    let email = trimmed form.email in
    let password = text_or_empty form.password in
    if is_empty email || is_empty password
    then some "Email and password are required."
    else if not (validate_email email)
    then some "Please enter a valid email address."
    else if not (validate_password password)
    then some "Password must be at least 8 characters long."
    else if is_empty keys.site_key
    then some "CAPTCHA is not configured. Please contact support."
    else if not s.captcha_ready || is_empty s.turnstile_token
    then some "Please complete the CAPTCHA verification before signing in."
    else none

-- Behind the checks: the limit on attempts, or the request.
unfoldable pub send_login : ℕ → Form → Screen → Screen × Option Credentials
unfolding show_feedback clear_feedback
send_login now form s =
    if le (pos max_attempts) s.attempts
    then (
      show_feedback
          "Too many failed attempts. For security, please wait 5 minutes before trying again." true
          error (lock now s),
      none,
    )
    else (
      clear_feedback (record s { submitting = true }),
      some (record {
        email = trimmed form.email;
        password = text_or_empty form.password;
        turnstile_token = s.turnstile_token;
      }),
    )

-- `handleLogin` up to the call of `login`; `rendered` is when the form was last rendered.
unfoldable pub begin_login :
    Keys → (rendered : ℕ) (now : ℕ) → Form → Screen → Screen × Option Credentials
unfolding send_login show_feedback
begin_login keys rendered now form s =
    if is_locked rendered s || is_busy s then (s, none) else elim (login_refusal keys form s) [
      | some message ↦ refuse message s
      | none ↦ send_login now form s
    ]

unfoldable pub is_invalid_credentials : Error → Bool
unfolding has_status has_code
is_invalid_credentials e = has_status 401 e || has_code "INVALID_CREDENTIALS" e

unfoldable pub is_captcha_error : Error → Bool
unfolding includes_lower
is_captcha_error e = includes_lower e.message "captcha" || includes_lower e.message "turnstile"

-- A failed attempt is counted, and the fifth starts the lockout.
abbrev count_failure : ℕ → Num → Screen → Screen
count_failure now attempts s =
    let next = add attempts (pos 1) in
    let s' = record s {
      attempts = next;
      local = record s.local {
        failed_attempts = some (text_of_num next);
        attempts_timestamp = some (decimal now);
      };
    } in
    if le (pos max_attempts) next
    then show_feedback "Too many failed attempts. Account locked for 5 minutes." true error
        (lock now s')
    else let left = sub (pos max_attempts) next in
      show_feedback
        ("Invalid credentials. "
          ++ (text_of_num left ++ (" attempt" ++ (plural left ++ " remaining."))))
        true error s'

-- The `catch` of `handleLogin`, after the widget is reset.
abbrev fail_login : ℕ → Num → Error → Screen → Screen
fail_login now attempts e s =
    if has_status 429 e
    then show_feedback (describe_auth_error e) true error s
    else if is_captcha_error e
    then show_feedback "CAPTCHA verification failed. Please complete the verification again." true
        error s
    else if not (is_invalid_credentials e)
    then show_feedback (describe_auth_error e) true error s
    else count_failure now attempts s

-- `handleLogin` from the answer of `login` on; `attempts` is the number that the handler was
-- rendered with.
unfoldable pub finish_login : ℕ → Num → Result Value → Screen → Screen
unfolding complete_login reset_turnstile show_feedback
finish_login now attempts (ok result) s = record (complete_login result s).0 { submitting = false }
finish_login now attempts (err e) s = record (fail_login now attempts e (reset_turnstile s)) {
  submitting = false;
}

-- The call of `login`, if the form is sent, and what follows it.
abbrev pub finish_sent :
    Network
    → Writer
    → (later : ℕ) (attempts : Num) → Store
    → Screen × Option Credentials
    → Screen × Store
finish_sent net write later attempts store (s, none) = (s, store)
finish_sent net write later attempts store (s, some c) =
    let (store', r) = Request.login net write later c.email c.password c.turnstile_token store in
    (finish_login later attempts r s, store')

-- `handleLogin` with nothing in between: sent at `now`, answered at `later`.
unfoldable pub handle_login :
    Keys
    → Network
    → Writer
    → (rendered : ℕ) (now : ℕ) (later : ℕ) → Form
    → Screen × Store
    → Screen × Store
unfolding begin_login finish_login
handle_login keys net write rendered now later form (s, store) =
    finish_sent net write later s.attempts store (begin_login keys rendered now form s)

-- `handleRegister`.
unfoldable pub handle_register : (rendered : ℕ) → Form → Screen → Screen
unfolding show_feedback
handle_register rendered form s =
    let email = trimmed form.email in
    let password = text_or_empty form.password in
    if is_locked rendered s || is_busy s
    then s
    else if is_empty email || not (validate_email email)
    then show_feedback "Please enter a valid email address." false error s
    else if is_empty password || not (validate_password password)
    then show_feedback "Password must be at least 8 characters long." false error s
    else if not (str_eq password (text_or_empty form.confirm_password))
    then show_feedback "Password confirmation does not match." false error s
    else if is_empty (text_or_empty form.terms)
    then show_feedback "You must accept the institutional platform terms to register." false error s
    else record (show_feedback
        "Registration is currently unavailable. Please contact support for account creation." true
        info (record s { submitting = true })) { submitting = false }

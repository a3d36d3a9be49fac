-- ===== src/Auth/Machine/Attempts.antt =====
-- The failed attempts of the sign-in screen: which answers count, and when the lockout starts.
use synora_hackathon.Prelude.{
  ℕ, ◌+◌, ◌≡◌, ◌↔◌, Bool, true, false, not, ◌&&◌, none, some, arith, leb, if◌then◌else◌,
}
use synora_hackathon.Js.Number.{pos, le}
use synora_hackathon.Js.Text.{is_empty}
use synora_hackathon.Js.Decimal.{decimal, text_of_num}
use synora_hackathon.Api.Base.{err, Error}
use synora_hackathon.Auth.Screen.{Screen, is_locked, is_busy, max_attempts, clear_feedback}
use synora_hackathon.Auth.Describe.{has_status}
use synora_hackathon.Auth.Validate.{validate_email, validate_password}
use synora_hackathon.Auth.Validate.Given.{has_password}
use synora_hackathon.Auth.Login.{
  Keys, Form, Credentials, trimmed, text_or_empty, login_refusal, send_login, begin_login,
  finish_login, is_invalid_credentials, is_captcha_error,
}

-- An answer that says that the credentials are wrong, and nothing else.
abbrev pub counts : Error → Bool
counts e = is_invalid_credentials e && not (has_status 429 e) && not (is_captcha_error e)

-- After a failed sign-in the form is free and the CAPTCHA has to be solved again. The attempt is
-- counted, stored and dated exactly if the answer says that the credentials are wrong and is neither
-- a 429 nor about the CAPTCHA; the fifth then starts a lockout of five minutes.
pub finish_login_failed :
    (now k : ℕ) (e : Error) (s : Screen)
    → let s' = finish_login now (pos k) (err e) s in
      (s'.submitting ≡ false)
      × (s'.captcha_ready ≡ false)
      × (s'.turnstile_token ≡ "")
      × (s'.attempts ≡ (if counts e then pos (k + 1) else s.attempts))
      × (s'.local.failed_attempts
          ≡ (if counts e then some (decimal (k + 1)) else s.local.failed_attempts))
      × (s'.local.attempts_timestamp
          ≡ (if counts e then some (decimal now) else s.local.attempts_timestamp))
      × (s'.lockout_ends
          ≡ (if counts e && leb max_attempts (k + 1) then pos (now + 300000) else s.lockout_ends))
unfolding finish_login text_of_num
finish_login_failed now k e s = ground arith

pub finish_login-google :
    (now k : ℕ) (e : Error) (s : Screen)
    → (finish_login now (pos k) (err e) s).google_submitting ≡ s.google_submitting
unfolding finish_login
finish_login-google now k e s = ground arith

-- What `handleLogin` checks of the form and the CAPTCHA.
pub record Passes (keys : Keys) (form : Form) (s : Screen) : Type 0 where
  pub has_email : is_empty (trimmed form.email) ≡ false
  pub valid_email : validate_email (trimmed form.email) ≡ true
  pub valid_password : validate_password (text_or_empty form.password) ≡ true
  pub has_key : is_empty keys.site_key ≡ false
  pub captcha_solved : s.captcha_ready ≡ true
  pub has_token : is_empty s.turnstile_token ≡ false

-- What it demands before it sends the form.
pub record MaySend (keys : Keys) (rendered : ℕ) (form : Form) (s : Screen) : Type 0 where
  pub unlocked : is_locked rendered s ≡ false
  pub idle : is_busy s ≡ false
  pub passes : Passes keys form s
  pub attempts_left : le (pos max_attempts) s.attempts ≡ false

login_refusal-eq-none_iff :
    (keys : Keys) (form : Form) (s : Screen)
    → (login_refusal keys form s ≡ none) ↔ Passes keys form s
unfolding login_refusal
login_refusal-eq-none_iff keys form s = ground (arith, has_password (text_or_empty form.password))

abbrev pub sent : Form → Screen → Credentials
sent form s = record {
  email = trimmed form.email;
  password = text_or_empty form.password;
  turnstile_token = s.turnstile_token;
}

send_login_iff :
    (now : ℕ) (form : Form) (s : Screen) (c : Credentials)
    → ((send_login now form s).1 ≡ some c)
      ↔ ((le (pos max_attempts) s.attempts ≡ false) × (c ≡ sent form s))
unfolding send_login
send_login_iff now form s c = ground arith

begin_login_cases :
    (keys : Keys) (rendered now : ℕ) (form : Form) (s : Screen) (c : Credentials)
    → ((begin_login keys rendered now form s).1 ≡ some c) ↔ (
        (is_locked rendered s ≡ false)
        × (is_busy s ≡ false)
        × (login_refusal keys form s ≡ none)
        × ((send_login now form s).1 ≡ some c))
unfolding begin_login
begin_login_cases keys rendered now form s c = ground arith

-- `handleLogin` calls `login` exactly when the form was not locked at its render, nothing is being
-- submitted, the e-mail and the password pass their checks, the CAPTCHA has a key and is solved
-- with a token, and five attempts are not reached; it does so with the trimmed e-mail, the
-- password and that token.
pub begin_login_iff :
    (keys : Keys) (rendered now : ℕ) (form : Form) (s : Screen) (c : Credentials)
    → ((begin_login keys rendered now form s).1 ≡ some c)
      ↔ (MaySend keys rendered form s × (c ≡ sent form s))
begin_login_iff keys rendered now form s c = grind (
  arith,
  begin_login_cases keys rendered now form s c,
  send_login_iff now form s c,
  login_refusal-eq-none_iff keys form s,
)

pub begin_login-MaySend :
    (keys : Keys) (rendered now : ℕ) (form : Form) (s : Screen)
    → MaySend keys rendered form s
    → begin_login keys rendered now form s
      ≡ (clear_feedback (record s { submitting = true }), some (sent form s))
unfolding begin_login send_login
begin_login-MaySend keys rendered now form s h =
    ground (arith, login_refusal-eq-none_iff keys form s)

-- ===== src/Tests/Auth.antt =====
-- The sign-in screen at small inputs.
use synora_hackathon.Prelude.{
  ℕ, ◌+◌, ◌≡◌, refl, ◌↔◌, true, false, ◌&&◌, none, some, List, [], ◌∷◌, ◌++◌, arith, leb,
  if◌then◌else◌,
}
use synora_hackathon.Js.Number.{pos}
use synora_hackathon.Js.Text.{trim}
use synora_hackathon.Js.Decimal.{decimal}
use synora_hackathon.Api.Base.{Error, err, coded_error}
use synora_hackathon.Auth.Screen.{no_entries, open_screen, is_stale, max_attempts}
use synora_hackathon.Auth.Describe.{has_status, has_code}
use synora_hackathon.Auth.Validate.{validate_email, validate_password}
use synora_hackathon.Auth.Validate.Email.{IsEmail, validate_email_iff}
use synora_hackathon.Auth.Login.{
  Keys, Form, trimmed, text_or_empty, begin_login, finish_login, is_invalid_credentials,
  is_captcha_error,
}
use synora_hackathon.Auth.Machine.{Machine, Event, submit, verified, tick, run, opened}
use synora_hackathon.Auth.Machine.Lockout.{run-HasLock}
use synora_hackathon.Auth.Machine.Sync.{reopen_keeps_counters}
use synora_hackathon.Auth.Machine.Attempts.{
  MaySend, sent, counts, begin_login_iff, finish_login_failed,
}
use synora_hackathon.Auth.Machine.Guesses.{IsFree, IsGuess, guesses, run-guesses}

abbrev keys : Keys
keys = record { site_key = "0x4AAAAAAAB"; client_id = "" }

abbrev form : Form
form = record {
  email = some " a@b.c ";
  password = some "password";
  confirm_password = none;
  terms = none;
}

abbrev wrong : Error
wrong = coded_error "Email or password is incorrect" "INVALID_CREDENTIALS"

abbrev start : Machine
start = opened 0 no_entries

start-IsFree : IsFree 0 start
unfolding open_screen
start-IsFree = record {
  counted = refl;
  no_lockout = refl;
  form_idle = refl;
  google_idle = refl;
  none_pending = refl;
}

form-IsGuess : IsGuess keys "ok" form wrong
unfolding trim trimmed validate_email validate_password text_or_empty is_invalid_credentials
    is_captcha_error has_status has_code
form-IsGuess = record {
  email_given = refl;
  email_valid = refl;
  password_valid = refl;
  key_set = refl;
  token_given = refl;
  wrong = refl;
}

run-guesses_example :
    let m' = run keys (guesses "ok" form wrong ((10 ∷ 20 ∷ 30 ∷ 40 ∷ []) ++ 50 ∷ [])) start in
    (m'.screen.attempts ≡ pos 5)
    × (m'.screen.lockout_ends ≡ pos (50 + 300000))
    × (m'.pending ≡ none)
run-guesses_example =
    run-guesses keys "ok" form wrong form-IsGuess 0 (10 ∷ 20 ∷ 30 ∷ 40 ∷ []) 50 start start-IsFree
      refl

abbrev locked : Machine
locked =
    opened 0 (record {
      failed_attempts = some "5";
      attempts_timestamp = none;
      lockout_ends = some "300000";
    })

locked_ends : locked.screen.lockout_ends ≡ pos 300000
unfolding open_screen
locked_ends = refl

abbrev tries : List (ℕ × Event)
tries = (100, tick) ∷ (200, verified "ok") ∷ (250, submit 250 form) ∷ []

run-HasLock_example :
    ((run keys tries locked).screen.lockout_ends ≡ pos 300000)
    × ((run keys tries locked).pending ≡ none)
run-HasLock_example = run-HasLock keys 300000 tries locked locked_ends refl (omega arith)

reopen_keeps_counters_example :
    let s = (run keys tries (opened 0 no_entries)).screen in
    let s' = open_screen 900 s.local in
    (s'.lockout_ends ≡ s.lockout_ends)
    × (s'.attempts ≡ (if is_stale 900 s.local.attempts_timestamp then pos 0 else s.attempts))
reopen_keeps_counters_example = reopen_keeps_counters keys 0 900 no_entries tries

begin_login_iff_example :
    ((begin_login keys 5 6 form start.screen).1 ≡ some (sent form start.screen))
    ↔ (MaySend keys 5 form start.screen × (sent form start.screen ≡ sent form start.screen))
begin_login_iff_example = begin_login_iff keys 5 6 form start.screen (sent form start.screen)

finish_login_failed_example :
    let s' = finish_login 70 (pos 2) (err wrong) start.screen in
    (s'.submitting ≡ false)
    × (s'.captcha_ready ≡ false)
    × (s'.turnstile_token ≡ "")
    × (s'.attempts ≡ (if counts wrong then pos (2 + 1) else start.screen.attempts))
    × (s'.local.failed_attempts
        ≡ (if counts wrong then some (decimal (2 + 1)) else start.screen.local.failed_attempts))
    × (s'.local.attempts_timestamp
        ≡ (if counts wrong then some (decimal 70) else start.screen.local.attempts_timestamp))
    × (s'.lockout_ends ≡ (
        if counts wrong && leb max_attempts (2 + 1)
        then pos (70 + 300000)
        else start.screen.lockout_ends))
finish_login_failed_example = finish_login_failed 70 2 wrong start.screen

validate_email_iff_example : (validate_email "a@b.c" ≡ true) ↔ IsEmail "a@b.c"
validate_email_iff_example = validate_email_iff "a@b.c"

addresses :
    (validate_email "a@b.c" ≡ true)
    × (validate_email "a b@c.d" ≡ false)
    × (validate_email "a@b@c.d" ≡ false)
    × (validate_email "a@.b" ≡ false)
    × (validate_email "a@b.c.d" ≡ true)
    × (validate_email "a@b." ≡ false)
unfolding validate_email
addresses = (refl, refl, refl, refl, refl, refl)

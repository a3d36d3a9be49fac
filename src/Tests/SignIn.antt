-- ===== src/Tests/SignIn.antt =====
-- Signing in, by a password and with Google, at small inputs.
use synora_hackathon.Prelude.{◌≡◌, refl, true, none, some}
use synora_hackathon.Js.Number.{pos}
use synora_hackathon.Js.Text.{trim}
use synora_hackathon.Js.Value.{Value, num, str, obj, end, field, member}
use synora_hackathon.Api.Base.{Store, faithful, Network, response, ok}
use synora_hackathon.Api.Session.{persist_session}
use synora_hackathon.Api.Request
use synora_hackathon.Auth.Screen.{Screen, no_entries, open_screen}
use synora_hackathon.Auth.Validate.{validate_email, validate_password}
use synora_hackathon.Auth.Login.{Keys, Form, trimmed, text_or_empty}
use synora_hackathon.Auth.Google.{google_callback}
use synora_hackathon.Auth.Google.Laws.{CallbackOutcome, google_callback-outcome}
use synora_hackathon.Auth.Machine.Attempts.{MaySend, sent}

abbrev pub keys : Keys
keys = record { site_key = "0x4AAAAAAAB"; client_id = "" }

abbrev pub form : Form
form = record {
  email = some " a@b.c ";
  password = some "password";
  confirm_password = none;
  terms = none;
}

abbrev pub solved : Screen
solved = record (open_screen 0 no_entries) {
  attempts = pos 3;
  captcha_ready = true;
  turnstile_token = "ok";
}

pub solved-MaySend : MaySend keys 5 form solved
unfolding open_screen trim trimmed validate_email validate_password text_or_empty
solved-MaySend = record {
  unlocked = refl;
  idle = refl;
  passes = record {
    has_email = refl;
    valid_email = refl;
    valid_password = refl;
    has_key = refl;
    captcha_solved = refl;
    has_token = refl;
  };
  attempts_left = refl;
}

abbrev pub payload : Value
payload = obj (
    field "token" (str "t")
      (field "expires_in" (num (pos 60)) (field "user" (obj (field "id" (str "u1") end)) end)))

abbrev pub accepting : Network
accepting r = response (record { status = 200; body = some payload; retry_header = none })

abbrev pub empty_store : Store
empty_store = record { auth_token = str ""; session = none }

pub accepted :
    (Request.login accepting faithful 7
      (sent form solved).email
      (sent form solved).password
      (sent form solved).turnstile_token
      empty_store).1
    ≡ ok payload
unfolding Request.login persist_session member
accepted = refl

abbrev google_response : Value
google_response =
    obj (
      field "credential" (str "eyJhbGciOiJSUzI1NiIsImtpZCI6IjEyMzQ1Njc4OTAiLCJ0eXAiOiJKV1QifQ") end)

google_callback-outcome_example :
    CallbackOutcome accepting faithful 7
      (member "credential" google_response)
      (solved, empty_store)
      (google_callback accepting faithful 7 google_response (solved, empty_store))
google_callback-outcome_example =
    google_callback-outcome accepting faithful 7 google_response solved empty_store

-- A credential that the server accepts.
google_accepted :
    (google_callback accepting faithful 7 google_response (solved, empty_store)).1.auth_token
    ≡ str "t"
unfolding google_callback member Request.login_with_google persist_session
google_accepted = refl

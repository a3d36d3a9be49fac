-- ===== src/Tests/Session.antt =====
-- The session and the requests of frontend/src/api.js at small inputs.
use synora_hackathon.Prelude.{◌≡◌, refl, ◌⊎◌, true, false, none, some}
use synora_hackathon.Js.Number.{pos}
use synora_hackathon.Js.Value.{Value, num, str, obj, end, field, truthy, member, num_of}
use synora_hackathon.Api.Base.{
  ok, err, json, not_json, Store, faithful, disabled, response, Network,
}
use synora_hackathon.Api.Session.{
  session_not_stored, is_complete, persist_session, is_expired, get_auth_token, load_page,
}
use synora_hackathon.Api.Session.Laws.{load_page_sound, persist_session_failed}
use synora_hackathon.Api.Request.{post_request, login_body, login}
use synora_hackathon.Api.Request.Laws.{SignInOutcome, login-outcome}

abbrev user : Value
user = obj (field "id" (str "u1") end)

abbrev payload : Value
payload = obj (field "token" (str "t") (field "expires_in" (num (pos 60)) (field "user" user end)))

abbrev empty_store : Store
empty_store = record { auth_token = str ""; session = none }

abbrev signed_in_store : Store
signed_in_store = (persist_session faithful 1000 payload empty_store).0

payload_complete : is_complete payload ≡ true
unfolding member
payload_complete = refl

payload_token : member "token" payload ≡ str "t"
unfolding member
payload_token = refl

-- The session lasts a minute.
session_lasts :
    ((load_page 60999 signed_in_store.session).auth_token ≡ str "t")
    × ((load_page 61000 signed_in_store.session).auth_token ≡ str "")
unfolding load_page persist_session member num_of
session_lasts = (refl, refl)

load_page_sound_example :
    let s = load_page 5 (some (not_json "oops")) in
    (s.auth_token ≡ str "")
    ⊎ ((v : Value) × (some (not_json "oops") ≡ some (json v))
        × (s.session ≡ some (not_json "oops"))
        × (s.auth_token ≡ member "token" v)
        × (truthy (member "token" v) ≡ true)
        × (is_expired 5 v ≡ false))
load_page_sound_example = load_page_sound 5 (some (not_json "oops"))

persist_session_failed_example :
    let (s', r) = persist_session disabled 1000 payload empty_store in
    (r ≡ err session_not_stored)
    × (s'.session ≡ none)
    × ((get_auth_token 2000 s').1 ≡ member "token" payload)
persist_session_failed_example =
    persist_session_failed disabled 1000 2000 payload empty_store payload_complete refl

abbrev accepting : Network
accepting r = response (record { status = 200; body = some payload; retry_header = none })

login-outcome_example :
    let (s', r) = login accepting faithful 1000 "a@b.c" "password" "ok" empty_store in
    SignInOutcome
      (accepting (post_request "/auth" (login_body "a@b.c" "password" "ok")))
      empty_store
      s'
      r
login-outcome_example = login-outcome accepting faithful 1000 "a@b.c" "password" "ok" empty_store

-- A sign-in that the server accepts.
login_accepted : (login accepting faithful 1000 "a@b.c" "password" "ok" empty_store).1 ≡ ok payload
unfolding login persist_session member
login_accepted = refl

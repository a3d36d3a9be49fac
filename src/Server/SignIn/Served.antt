-- ===== src/Server/SignIn/Served.antt =====
-- The sign-in of the client at the server.
use synora_hackathon.Prelude.{
  ℕ, ◌≡◌, refl, ◌⊎◌, inl, inr, Bool, true, false, not, ◌&&◌, Option, none, some, List, String,
  Bool-cases, Option-cases,
}
use synora_hackathon.Js.Text.{is_empty, includes, includes_lower}
use synora_hackathon.Js.Value.{Value, end, member}
use synora_hackathon.Api.Base.{Error, Result, ok, err, Network, Response, response, post}
use synora_hackathon.Api.Request.{post_request, post_auth, login_body, json_response}
use synora_hackathon.Auth.Describe.{has_status, has_code}
use synora_hackathon.Auth.Login.{is_invalid_credentials, is_captcha_error}
use synora_hackathon.Server.Limiter.{write_err}
use synora_hackathon.Server.SignIn.{
  find_account, Account, Libraries, Config, go_trim, to_lower, validate_turnstile, known,
  session_body, issue, check_password, turnstile_refusal, auth, internal_error, validation_error,
}

-- Whether the sign-in screen counts an error as a failed attempt.
abbrev pub counts : Error → Bool
counts e = not (has_status 429 e) && not (is_captcha_error e) && is_invalid_credentials e

abbrev pub is_none {ℓ} : {A : Type ℓ} → Option A → Bool
is_none none = true
is_none (some a) = false

-- The account of an email, with a password that is the account's.
pub record Owns (lib : Libraries) (users : List Account) (email password : String) (a : Account)
    : Type 0 where
  pub found : find_account email users ≡ some a
  pub matching : lib.matches a.password_hash password ≡ true

-- A sign-in that the server accepts: the account and the token of its session.
pub record Accepted (cfg : Config) (lib : Libraries) (now : ℕ) (users : List Account)
    (email password : String) (r : Result Value) : Type 0 where
  pub account : Account
  pub token : String
  pub owned : Owns lib users email password account
  pub signed : lib.sign account.id now ≡ some token
  pub session : r ≡ ok (session_body token account.id email cfg.ttl)

-- Whether the table has an account of the email, with this password.
abbrev pub is_owner : Libraries → List Account → (email password : String) → Bool
is_owner lib users email password = elim (find_account email users) [
  | none ↦ false
  | some a ↦ lib.matches a.password_hash password
]

-- What `known` gives: an account, or none where the database does not answer or has no such account.
abbrev Knows : Libraries → Bool → List Account → (email password : String) → Option Account → Type 0
Knows lib queries users email password none = (queries && is_owner lib users email password) ≡ false
Knows lib queries users email password (some a) = (queries ≡ true) × Owns lib users email password a

known-Knows :
    (lib : Libraries) (queries : Bool) (users : List Account) (email password : String)
    → Knows lib queries users
        (to_lower (go_trim email))
        password
        (known lib queries users email password)
known-Knows lib false users email password = refl
known-Knows lib true users email password =
    elim (Option-cases (find_account (to_lower (go_trim email)) users)) [
      | inl missing ↦ rw missing (rw (is_owner, missing) refl)
      | inr (a, found) ↦ elim (Bool-cases (lib.matches a.password_hash password)) [
        | inr wrong ↦ rw (found, wrong) (rw (is_owner, found, wrong) refl)
        | inl right ↦ rw (found, right) (refl, record { found = found; matching = right })
      ]
    ]

abbrev Fails : Bool → Result Value → Type 0
Fails b r = (e : Error) × (r ≡ err e) × (counts e ≡ b)

hears-internal :
    (fallback : String)
    → Fails false (json_response (internal_error "Unable to issue token") fallback)
unfolding json_response member has_status has_code is_invalid_credentials is_captcha_error
    includes_lower
hears-internal fallback = (_, refl, refl)

hears-validation :
    (fallback : String)
    → Fails false (json_response (validation_error "Turnstile verification is required") fallback)
unfolding json_response member has_status has_code is_invalid_credentials is_captcha_error
    includes_lower
hears-validation fallback = (_, refl, refl)

hears-unavailable :
    (fallback : String)
    → Fails false (
        json_response
          (write_err 503 "AUTH_UNAVAILABLE" "Turnstile verification is not configured" end)
          fallback)
unfolding json_response member has_status has_code is_invalid_credentials is_captcha_error
    includes_lower
hears-unavailable fallback = (_, refl, refl)

hears-refusal :
    (error fallback : String) → Fails false (json_response (turnstile_refusal error) fallback)
hears-refusal error fallback = elim (Bool-cases (includes error "not configured")) [
  | inl missing ↦ rw missing (hears-unavailable fallback)
  | inr other ↦ rw other (hears-validation fallback)
]

hears-wrong :
    (fallback : String)
    → Fails true (
        json_response
          (write_err 401 "INVALID_CREDENTIALS" "Email or password is incorrect" end)
          fallback)
unfolding json_response member has_status has_code is_invalid_credentials is_captcha_error
    includes_lower
hears-wrong fallback = (_, refl, refl)

hears-session :
    (token id email fallback : String) (ttl : ℕ)
    → json_response
        (record {
          status = 200;
          body = some (session_body token id email ttl);
          retry_header = none;
        })
        fallback
      ≡ ok (session_body token id email ttl)
unfolding json_response
hears-session token id email fallback ttl = refl

hears-issue :
    (cfg : Config) (lib : Libraries) (now : ℕ) (users : List Account) (a : Account)
    (email password fallback : String)
    → Owns lib users email password a
    → let r = json_response (issue cfg lib now a.id email) fallback in
      Accepted cfg lib now users email password r ⊎ Fails false r
hears-issue cfg lib now users a email password fallback o =
    elim (Option-cases (lib.sign a.id now)) [
      | inl unsigned ↦ rw (issue, unsigned) (inr (hears-internal fallback))
      | inr (token, given) ↦
          rw (issue, given)
            (inl (record {
              account = a;
              token = token;
              owned = o;
              signed = given;
              session = hears-session token a.id email fallback cfg.ttl;
            }))
    ]

module _ (cfg : Config) (lib : Libraries) (now : ℕ) (queries : Bool) (users : List Account)
    (ip : String) (email password turnstile : String) (p : is_empty (go_trim email) ≡ false)
    (q : is_empty password ≡ false) where
  abbrev answered : Response
  answered = auth cfg lib now queries users ip post (some (login_body email password turnstile))

  answered-refusal :
      (error : String)
      → validate_turnstile cfg lib turnstile ip ≡ some error
      → answered ≡ turnstile_refusal error
  unfolding auth
  answered-refusal error h = rw (p, q, h) refl

  answered-checked :
      validate_turnstile cfg lib turnstile ip ≡ none
      → answered ≡ check_password cfg lib now queries users email password
  unfolding auth
  answered-checked h = rw (p, q, h) refl

Owns-is_owner :
    (lib : Libraries) (users : List Account) (email password : String) (a : Account)
    → Owns lib users email password a
    → is_owner lib users email password ≡ true
Owns-is_owner lib users email password a o = rw (is_owner, o.found, o.matching) refl

hears-checked :
    (cfg : Config) (lib : Libraries) (now : ℕ) (queries : Bool) (users : List Account)
    (email password fallback : String) (who : Option Account)
    → known lib queries users email password ≡ who
    → let name = to_lower (go_trim email) in
      let r = json_response (check_password cfg lib now queries users email password) fallback in
      ((true ≡ true) × (queries ≡ true) × Accepted cfg lib now users name password r)
      ⊎ Fails (not (queries && is_owner lib users name password)) r
hears-checked cfg lib now queries users email password fallback none e =
    let lost : (queries && is_owner lib users (to_lower (go_trim email)) password) ≡ false =
      rw e at (known-Knows lib queries users email password) in
    rw (check_password, e, lost) (inr (hears-wrong fallback))
hears-checked cfg lib now queries users email password fallback (some a) e =
    let (on, o) = rw e at (known-Knows lib queries users email password) in
    let owner = Owns-is_owner lib users (to_lower (go_trim email)) password a o in
    rw (check_password, e)
      (elim (hears-issue cfg lib now users a (to_lower (go_trim email)) password fallback o) [
        | inl accepted ↦ inl (refl, on, accepted)
        | inr fails ↦ inr (rw (on, owner) fails)
      ])

post_auth-heard :
    (net : Network) (path fallback : String) (body : Value) (x : Response)
    → net (post_request path body) ≡ response x
    → post_auth net path body fallback ≡ json_response x fallback
unfolding post_auth
post_auth-heard net path fallback body x h = rw h refl

-- Take an email that is not blank and a password that is not empty, and a network that passes the request
-- on to `auth` and its answer back. Either Cloudflare's check passes, the database answers, the account of
-- the email has that password, and the client gets the session of the account with a token that the
-- server signed; or the client gets an error. The error counts as a failed attempt exactly where the check
-- has passed and the database does not answer or has no account of the email with that password.
pub post_auth-served :
    (cfg : Config) (lib : Libraries) (now : ℕ) (queries : Bool) (users : List Account) (ip : String)
    (net : Network) (email password turnstile fallback : String)
    → is_empty (go_trim email) ≡ false
    → is_empty password ≡ false
    → let body = login_body email password turnstile in
      net (post_request "/auth" body)
        ≡ response (auth cfg lib now queries users ip post (some body))
      → let name = to_lower (go_trim email) in
        let passes = is_none (validate_turnstile cfg lib turnstile ip) in
        let r = post_auth net "/auth" body fallback in
        ((passes ≡ true) × (queries ≡ true) × Accepted cfg lib now users name password r)
        ⊎ ((e : Error) × (r ≡ err e)
            × (counts e ≡ (passes && not (queries && is_owner lib users name password))))
post_auth-served cfg lib now queries users ip net email password turnstile fallback p q h =
    rw (post_auth-heard net "/auth" fallback (login_body email password turnstile) _ h)
      (elim (Option-cases (validate_turnstile cfg lib turnstile ip)) [
        | inr (error, refused) ↦
            rw
              (
                answered-refusal cfg lib now queries users ip email password turnstile p q error
                    refused,
                refused,
              )
              (inr (hears-refusal error fallback))
        | inl fine ↦
            rw
              (
                answered-checked cfg lib now queries users ip email password turnstile p q fine,
                fine,
              )
              (hears-checked cfg lib now queries users email password fallback _ refl)
      ])

-- ===== src/Server/Google.antt =====
-- backend/internal/handlers/handlers.go, lines 254 to 396: the handler of a sign-in with Google. Google's
-- answer about a credential is an argument, as is what the libraries make of a new password.
pub mod Accounts
use Prim.Native.String.{[], ◌∷◌}
use synora_hackathon.Prelude.{
  ℕ, ◌+◌, ◌-◌, ◌*◌, ◌^◌, Bool, true, false, not, ◌||◌, ◌&&◌, code, Option, none, some, List, String,
  str_eq, ltb, leb, ◌==◌, if◌then◌else◌,
}
use mathlib.Core.List as L
use synora_hackathon.Js.Text.{is_digit, is_empty, includes}
use synora_hackathon.Js.Value.{Value, bool, str, end}
use synora_hackathon.Api.Base.{Method, get, post, Response}
use synora_hackathon.Server.Bids.{same_fold}
use synora_hackathon.Server.Limiter.{write_err}
use synora_hackathon.Server.SignIn.{
  Account, Libraries, Config, go_trim, to_lower, decode_struct, find_account, empty_response,
  validation_error, internal_error, issue,
}

-- What Google says about a credential, as far as it decodes.
pub record TokenInfo : Type 0 where
  pub aud : String
  pub iss : String
  pub email : String
  pub email_verified : Value
  pub exp : String

-- The call of Google: an error, also where the answer does not decode, another status than 200, or the
-- answer.
pub data Tokeninfo : Type 0 where
  failed refused : Tokeninfo
  info : TokenInfo → Tokeninfo

-- `verifiedEmailFlag`.
abbrev pub verified_email_flag : Value → Bool
verified_email_flag (bool b) = b
verified_email_flag (str s) = same_fold s "true"
verified_email_flag _ = false

abbrev digits : ℕ → String → Option ℕ
digits total [] = some total
digits total (c ∷ s) =
    let later = digits (total * 10 + (code c - b'0')) s in if is_digit (code c) then later else none

-- `strconv.ParseInt(exp, 10, 64)`, where a negative number counts as 0.
unfoldable pub parse_seconds : String → Option ℕ
parse_seconds [] = none
parse_seconds (c ∷ s) =
    let text = if code c == b'-' || code c == b'+' then s else c ∷ s in
    if is_empty text then none else elim (digits 0 text) [
      | none ↦ none
      | some n ↦
          if code c == b'-'
          then (if leb n (2 ^ 63) then some 0 else none)
          else if ltb n (2 ^ 63)
          then some n
          else none
    ]

-- The expiry is looked at only where it can be read; `now` is in seconds.
abbrev is_past : ℕ → String → Bool
is_past now exp = elim (parse_seconds exp) [ none ↦ false | some n ↦ leb n now ]

abbrev verified_email : (client_id : String) (now : ℕ) → TokenInfo → Option String
verified_email client_id now t =
    let email = to_lower (go_trim t.email) in
    if not (str_eq t.aud client_id)
    then none
    else if not (str_eq t.iss "accounts.google.com")
        && not (str_eq t.iss "https://accounts.google.com")
    then none
    else if not (verified_email_flag t.email_verified)
    then none
    else if is_empty email || not (includes email "@")
    then none
    else if is_past now t.exp
    then none
    else some email

abbrev of_tokeninfo : String → ℕ → Tokeninfo → Option String
of_tokeninfo client_id now failed = none
of_tokeninfo client_id now refused = none
of_tokeninfo client_id now (info t) = verified_email client_id now t

-- `verifyGoogleIDToken`: the email, or `none` for its error.
unfoldable pub verify_google_id_token :
    Config → (tokeninfo : String → Tokeninfo) (now : ℕ) → (credential : String) → Option String
unfolding go_trim to_lower parse_seconds includes
verify_google_id_token cfg tokeninfo now credential =
    let client_id = go_trim cfg.google_client_id in
    let credential' = go_trim credential in
    if is_empty client_id || is_empty credential'
    then none
    else of_tokeninfo client_id now (tokeninfo credential')

-- What the calls for one request come to: whether the query goes through, the hash of a random
-- password, and the id of the row that the insertion returns.
pub record Calls : Type 0 where
  pub queries : Bool
  pub new_hash : Option String
  pub new_id : Option String

abbrev refuse_account : List Account → String → List Account × Response
refuse_account users message = (users, internal_error message)

-- A new row of `users`.
abbrev pub create_account :
    Config → Libraries → ℕ → Calls → String → List Account → List Account × Response
create_account cfg lib now calls email users = elim calls.new_hash [
  | none ↦ refuse_account users "Unable to create Google account"
  | some hash ↦ elim calls.new_id [
    | none ↦ refuse_account users "Unable to create Google account"
    | some id ↦ (
      L.◌∷◌ (record { id = id; email = email; password_hash = hash }) users,
      issue cfg lib now id email,
    )
  ]
]

-- `googleAuth` from the verified email on.
unfoldable pub account_for :
    Config → Libraries → ℕ → Calls → (email : String) → List Account → List Account × Response
unfolding find_account
account_for cfg lib now calls email users =
    if not calls.queries
    then refuse_account users "Unable to load Google account"
    else elim (find_account email users) [
      | some a ↦ (users, issue cfg lib now a.id email)
      | none ↦ create_account cfg lib now calls email users
    ]

abbrev pub google_sign_in :
    Config
    → Libraries
    → (tokeninfo : String → Tokeninfo) (now : ℕ) → Calls
    → (credential : String) → List Account
    → List Account × Response
google_sign_in cfg lib tokeninfo now calls credential users =
    if is_empty (go_trim credential)
    then (users, validation_error "Google credential is required")
    else elim (verify_google_id_token cfg tokeninfo now credential) [
      | none ↦ (
        users,
        write_err 401 "INVALID_CREDENTIALS" "Google authentication failed. Please try again." end,
      )
      | some email ↦ account_for cfg lib now calls email users
    ]

-- `googleAuth`: the accounts behind it and the answer.
unfoldable pub google_auth :
    Config
    → Libraries
    → (tokeninfo : String → Tokeninfo) (now : ℕ) → Calls
    → Method
    → Option Value
    → List Account
    → List Account × Response
unfolding verify_google_id_token account_for decode_struct
google_auth cfg lib tokeninfo now calls get body users = (users, empty_response 405)
google_auth cfg lib tokeninfo now calls post body users =
    if is_empty (go_trim cfg.google_client_id)
    then (
      users,
      write_err 503 "AUTH_UNAVAILABLE"
          "Google Sign-In is not configured. Please contact your administrator." end,
    )
    else elim (decode_struct (L.◌∷◌ "credential" L.[]) body) [
      | none ↦ (users, validation_error "Google credential is required")
      | some f ↦ google_sign_in cfg lib tokeninfo now calls (f "credential") users
    ]

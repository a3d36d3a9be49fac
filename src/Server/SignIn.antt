-- ===== src/Server/SignIn.antt =====
-- backend/internal/handlers/handlers.go, lines 185 to 252 and 397 to 431: the handler of a sign-in by
-- password, with its checks of the body and of Cloudflare's answer. The libraries for passwords, for
-- tokens and for the call of Cloudflare are a record of functions.
pub mod Served
use Prim.Native.String.{[], ◌∷◌, char_at}
use synora_hackathon.Prelude.{
  ℕ, ◌-◌, Bool, true, false, not, ◌||◌, ◌&&◌, Char, code, Option, none, some, List, String, str_eq,
  leb, ◌==◌, if◌then◌else◌,
}
use mathlib.Core.List as L
use synora_hackathon.Js.Number.{pos}
use synora_hackathon.Js.Text.{is_space, is_empty, includes}
use synora_hackathon.Js.Value.{Value, null, num, str, obj, Fields, end, field}
use synora_hackathon.Api.Base.{Method, get, post, Response}
use synora_hackathon.Server.Bids.{same_fold}
use synora_hackathon.Server.Limiter.{write_err}

-- White space for `strings.TrimSpace`.
abbrev is_go_space : ℕ → Bool
is_go_space n = (is_space n && not (n == 0xfeff)) || n == 0x85

unfoldable pub go_trim_start : String → String
go_trim_start [] = []
go_trim_start (c ∷ s) = let rest = go_trim_start s in if is_go_space (code c) then rest else c ∷ s

abbrev keep_unless : Bool → Char → String → String
keep_unless true c [] = []
keep_unless true c (d ∷ s) = c ∷ (d ∷ s)
keep_unless false c s = c ∷ s

unfoldable pub go_trim_end : String → String
go_trim_end [] = []
go_trim_end (c ∷ s) = keep_unless (is_go_space (code c)) c (go_trim_end s)

-- `strings.TrimSpace`.
unfoldable pub go_trim : String → String
unfolding go_trim_start go_trim_end
go_trim s = go_trim_end (go_trim_start s)

abbrev lower_char : Char → Char
lower_char c =
    if leb b'A' (code c) && leb (code c) b'Z'
    then char_at "abcdefghijklmnopqrstuvwxyz" (code c - b'A')
    else c

-- `strings.ToLower`, on ASCII letters.
unfoldable pub to_lower : String → String
to_lower [] = []
to_lower (c ∷ s) = lower_char c ∷ to_lower s

-- The fields of a struct of texts, by the names of its tags.
abbrev pub Texts : Type 0
Texts = String → String

abbrev set : String → String → Texts → Texts
set name s f = λ q. if str_eq q name then s else f q

abbrev set_value : String → Value → Texts → Option Texts
set_value name (str s) f = some (set name s f)
set_value name null f = some f
set_value name _ f = none

-- One key of the body, to the field of its name up to case, if there is one.
abbrev set_field : List String → String → Value → Texts → Option Texts
set_field L.[] key v f = none
set_field (L.◌∷◌ name names) key v f =
    let later = set_field names key v f in if same_fold key name then set_value name v f else later

infixl 5 ◌>>=◌
abbrev ◌>>=◌ : Option Texts → (Texts → Option Texts) → Option Texts
none >>= g = none
some f >>= g = g f

-- `decode` into a struct of texts, with unknown fields disallowed.
unfoldable pub decode_texts : List String → Fields → Texts → Option Texts
decode_texts names end f = some f
decode_texts names (field key v fs) f = do f' ← set_field names key v f; decode_texts names fs f'

-- `decode` on what the body parses to, if it does.
unfoldable pub decode_struct : List String → Option Value → Option Texts
unfolding decode_texts
decode_struct names (some (obj fs)) = decode_texts names fs (λ q. "")
decode_struct names (some null) = some (λ q. "")
decode_struct names _ = none

-- A row of `users`.
pub record Account : Type 0 where
  pub id : String
  pub email : String
  pub password_hash : String

-- What the call of Cloudflare comes to: an error with its text, also where the answer does not decode,
-- another status than 200, or the verdict.
pub data Siteverify : Type 0 where
  failed : (reason : String) → Siteverify
  refused : Siteverify
  verdict : (success : Bool) → Siteverify

-- `bcrypt.CompareHashAndPassword`, `token` at a time, and the call of Cloudflare.
pub record Libraries : Type 0 where
  pub matches : (hash password : String) → Bool
  pub sign : (uid : String) (now : ℕ) → Option String
  pub siteverify : (secret token ip : String) → Siteverify

pub record Config : Type 0 where
  pub turnstile_secret : String
  pub google_client_id : String
  pub ttl : ℕ

abbrev siteverify_error : Siteverify → Option String
siteverify_error (failed reason) = some reason
siteverify_error refused = some "turnstile verification failed"
siteverify_error (verdict true) = none
siteverify_error (verdict false) = some "invalid turnstile token"

-- `validateTurnstileToken`: its error, if any.
unfoldable pub validate_turnstile : Config → Libraries → (token ip : String) → Option String
unfolding go_trim
validate_turnstile cfg lib token ip =
    let secret = go_trim cfg.turnstile_secret in
    if is_empty secret
    then some "turnstile is not configured"
    else if is_empty (go_trim token)
    then some "missing turnstile token"
    else siteverify_error (lib.siteverify secret token (go_trim ip))

-- `select id,password_hash from users where email=$1`.
unfoldable pub find_account : String → List Account → Option Account
find_account email L.[] = none
find_account email (L.◌∷◌ a users) =
    let rest = find_account email users in if str_eq a.email email then some a else rest

abbrev pub empty_response : ℕ → Response
empty_response status = record { status = status; body = none; retry_header = none }

abbrev pub validation_error : String → Response
validation_error message = write_err 400 "VALIDATION_ERROR" message end

abbrev pub internal_error : String → Response
internal_error message = write_err 500 "INTERNAL_ERROR" message end

-- The body of a sign-in that succeeds.
abbrev pub session_body : (token id email : String) (ttl : ℕ) → Value
session_body token id email ttl = obj (
    field "token" (str token) (
      field "token_type" (str "Bearer") (
        field "expires_in" (num (pos ttl))
          (field "user" (obj (field "id" (str id) (field "email" (str email) end))) end))))

-- The end of both sign-ins: `a.token(id)` and the answer.
abbrev pub issue : Config → Libraries → ℕ → (id email : String) → Response
issue cfg lib now id email = elim (lib.sign id now) [
  | none ↦ internal_error "Unable to issue token"
  | some token ↦ record {
    status = 200;
    body = some (session_body token id email cfg.ttl);
    retry_header = none;
  }
]

-- The account of an email whose password it is. `queries` says that the database answers; where it does
-- not, there is none either.
abbrev pub known : Libraries → Bool → List Account → (email password : String) → Option Account
known lib queries users email password =
    if not queries then none else elim (find_account (to_lower (go_trim email)) users) [
      | none ↦ none
      | some a ↦ if lib.matches a.password_hash password then some a else none
    ]

abbrev check_password :
    Config → Libraries → ℕ → Bool → List Account → (email password : String) → Response
check_password cfg lib now queries users email password =
    elim (known lib queries users email password) [
      | none ↦ write_err 401 "INVALID_CREDENTIALS" "Email or password is incorrect" end
      | some a ↦ issue cfg lib now a.id (to_lower (go_trim email))
    ]

abbrev turnstile_refusal : String → Response
turnstile_refusal error =
    if includes error "not configured"
    then write_err 503 "AUTH_UNAVAILABLE" "Turnstile verification is not configured" end
    else validation_error "Turnstile verification is required"

abbrev check_turnstile :
    Config → Libraries → ℕ → Bool → List Account → (ip : String) → Texts → Response
check_turnstile cfg lib now queries users ip f =
    if is_empty (go_trim (f "email")) || is_empty (f "password")
    then validation_error "Email and password are required"
    else elim (validate_turnstile cfg lib (f "cf_turnstile_response") ip) [
      | some error ↦ turnstile_refusal error
      | none ↦ check_password cfg lib now queries users (f "email") (f "password")
    ]

abbrev auth_fields : List String
auth_fields = L.◌∷◌ "email" (L.◌∷◌ "password" (L.◌∷◌ "cf_turnstile_response" L.[]))

-- `auth`.
unfoldable pub auth :
    Config
    → Libraries
    → (now : ℕ) (queries : Bool) → List Account
    → (ip : String) → Method
    → Option Value
    → Response
unfolding decode_struct validate_turnstile find_account to_lower
auth cfg lib now queries users ip get body = empty_response 405
auth cfg lib now queries users ip post body = elim (decode_struct auth_fields body) [
  | none ↦ validation_error "Email and password are required"
  | some f ↦ check_turnstile cfg lib now queries users ip f
]

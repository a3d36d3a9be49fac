-- ===== src/Api/Session.antt =====
-- frontend/src/api.js, lines 6 to 79: how a session is stored, restored and read.
pub mod Laws
pub mod Contract
use synora_hackathon.Prelude.{
  ℕ, Bool, true, false, ◌&&◌, ◌||◌, not, Option, none, some, String, if◌then◌else◌,
}
use synora_hackathon.Js.Number.{Num, pos, add, scale, le, is_truthy}
use synora_hackathon.Js.Text.{is_empty}
use synora_hackathon.Js.Value.{
  Value, undefined, null, num, str, obj, Fields, end, field, truthy, or_else, member, is_nullish,
  strict_eq, num_of,
}
use synora_hackathon.Api.Base.{
  Error, plain_error, coded_error, Result, ok, err, Cell, json, not_json, Store, Writer,
}

abbrev pub session_incomplete : Error
session_incomplete =
    coded_error "Authentication succeeded but the session payload was incomplete." "SESSION_ERROR"

abbrev pub session_not_stored : Error
session_not_stored =
    coded_error "Failed to store session. Your browser may have storage disabled."
      "SESSION_STORAGE_ERROR"

-- The test that opens `persistSession`, and `completeLogin` of the sign-in screen.
abbrev pub is_complete : Value → Bool
is_complete payload =
    truthy (member "token" payload) && truthy (member "id" (member "user" payload))

abbrev seconds_or_hour : Num → Num
seconds_or_hour n = if is_truthy n then n else pos 3600

abbrev pub expires_at : ℕ → Value → Num
expires_at now payload =
    add (pos now) (scale 1000 (seconds_or_hour (num_of (member "expires_in" payload))))

-- The object that `persistSession` stores.
abbrev pub session_of : ℕ → Value → Value
session_of now payload = obj (
    field "token" (member "token" payload) (
      field "token_type" (or_else (member "token_type" payload) (str "Bearer")) (
        field "user" (member "user" payload)
          (field "expires_at" (num (expires_at now payload)) end))))

-- The check of the stored text: `if (!stored)`, `JSON.parse` and the comparison of the tokens.
abbrev pub is_verified : Value → Option Cell → Bool
is_verified token none = false
is_verified token (some (not_json text)) = false
is_verified token (some (json v)) = not (is_nullish v) && strict_eq (member "token" v) token

abbrev stored : Store → Value → Option (Option Cell) → Store × Result Value
stored s payload none = (s, err session_not_stored)
stored s payload (some entry) = (
  record s { session = entry },
  if is_verified (member "token" payload) entry then ok payload else err session_not_stored,
)

-- `persistSession`: the new store, and the payload or the error that is thrown.
unfoldable pub persist_session : Writer → ℕ → Value → Store → Store × Result Value
persist_session write now payload s =
    if is_complete payload
    then stored (record s { auth_token = member "token" payload }) payload
        (write (json (session_of now payload)) s.session)
    else (s, err session_incomplete)

abbrev pub cleared : Store
cleared = record { auth_token = str ""; session = none }

-- `session.expires_at && session.expires_at <= Date.now()`.
abbrev pub is_expired : ℕ → Value → Bool
is_expired now v = truthy (member "expires_at" v) && le (num_of (member "expires_at" v)) (pos now)

abbrev restored : ℕ → Option Cell → Store → Store
restored now none s = s
restored now (some (not_json text)) s = if is_empty text then s else cleared
restored now (some (json v)) s =
    if not (truthy (member "token" v)) || is_expired now v
    then cleared
    else record s { auth_token = member "token" v }

-- `restoreSession`.
unfoldable pub restore_session : ℕ → Store → Store
restore_session now s = restored now s.session s

-- `setAuthToken`.
unfoldable pub set_auth_token : Value → Store → Store
set_auth_token token s = if truthy token then record s { auth_token = token } else cleared

-- `getAuthToken`: the store that it leaves and the token.
unfoldable pub get_auth_token : ℕ → Store → Store × Value
unfolding restore_session
get_auth_token now s =
    let s' = if truthy s.auth_token then s else restore_session now s in (s', s'.auth_token)

abbrev user_of : Value → Value
user_of v = if is_nullish v then null else or_else (member "user" v) null

-- `getSessionUser`.
unfoldable pub get_session_user : Store → Value
get_session_user s = elim s.session [
  | none ↦ null
  | some (not_json text) ↦ null
  | some (json v) ↦ user_of v
]

-- The page is loaded anew: the module's variable starts empty and `restoreSession` runs.
unfoldable pub load_page : ℕ → Option Cell → Store
unfolding restore_session
load_page now entry = restore_session now (record { auth_token = str ""; session = entry })

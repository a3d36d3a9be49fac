-- ===== src/Api/Session/Laws.antt =====
-- What the session of frontend/src/api.js promises.
use synora_hackathon.Prelude.{
  ℕ, ◌≡◌, refl, ◌⊎◌, true, false, ◌&&◌, Option, none, some, String, arith, eq_refl, Bool-cases, inl,
  inr, if◌then◌else◌,
}
use synora_hackathon.Js.Number.{pos, le, is_truthy}
use synora_hackathon.Js.Value.{Value, num, str, obj, truthy, is_nullish, member, num_of}
use synora_hackathon.Api.Base.{ok, err, Cell, json, not_json, Store, Writer, faithful}
use synora_hackathon.Api.Session.{
  session_incomplete, session_not_stored, is_complete, expires_at, session_of, persist_session,
  cleared, is_expired, set_auth_token, get_auth_token, get_session_user, load_page,
}

module _ (now : ℕ) (payload : Value) where
  session_of-token : member "token" (session_of now payload) ≡ member "token" payload
  unfolding member
  session_of-token = refl

  session_of-user : member "user" (session_of now payload) ≡ member "user" payload
  unfolding member
  session_of-user = refl

  session_of-expires_at :
      member "expires_at" (session_of now payload) ≡ num (expires_at now payload)
  unfolding member
  session_of-expires_at = refl

-- Only an object has a truthy property.
member-truthy :
    (key : String) (v : Value)
    → truthy (member key v) ≡ true
    → (truthy v ≡ true) × (is_nullish v ≡ false)
unfolding member
member-truthy key (obj fs) h = ground arith
member-truthy key _ h = cc

is_complete-user :
    (payload : Value) → is_complete payload ≡ true → truthy (member "user" payload) ≡ true
is_complete-user payload c = ground (arith, member-truthy "id" (member "user" payload))

-- In a browser that stores what it is given, a complete payload with a text for a token is stored
-- and returned, `getAuthToken` gives its token and `getSessionUser` its user.
pub persist_session_stores :
    (now later : ℕ) (payload : Value) (token : String) (s : Store)
    → is_complete payload ≡ true
    → member "token" payload ≡ str token
    → let (s', r) = persist_session faithful now payload s in
      (r ≡ ok payload)
      × ((get_auth_token later s').1 ≡ str token)
      × (get_session_user s' ≡ member "user" payload)
unfolding persist_session get_auth_token get_session_user
persist_session_stores now later payload token s c t = ground (
  arith,
  session_of-token now payload,
  session_of-user now payload,
  is_complete-user payload c,
  eq_refl token,
)

-- After a stored sign-in the page is loaded anew at `later`: the token is there exactly until the
-- session's `expires_at`, and from then on the entry is removed.
pub load_page-persist_session :
    (now later : ℕ) (payload : Value) (token : String) (s : Store)
    → is_complete payload ≡ true
    → member "token" payload ≡ str token
    → let s' = load_page later (persist_session faithful now payload s).0.session in
      let over = is_truthy (expires_at now payload) && le (expires_at now payload) (pos later) in
      s' ≡ (
        if over
        then cleared
        else record { auth_token = str token; session = some (json (session_of now payload)) })
unfolding persist_session load_page num_of
load_page-persist_session now later payload token s c t =
    ground (arith, session_of-token now payload, session_of-expires_at now payload)

-- Whatever text the entry holds, a page load leaves either the empty token or the token of the
-- entry, which then parses, is not expired and stays in place.
pub load_page_sound :
    (now : ℕ) (entry : Option Cell)
    → let s = load_page now entry in
      (s.auth_token ≡ str "")
      ⊎ ((v : Value) × (entry ≡ some (json v))
          × (s.session ≡ entry)
          × (s.auth_token ≡ member "token" v)
          × (truthy (member "token" v) ≡ true)
          × (is_expired now v ≡ false))
unfolding load_page
load_page_sound now none = ground arith
load_page_sound now (some (not_json text)) = ground arith
load_page_sound now (some (json v)) = elim (Bool-cases (is_expired now v)) [
  | inl old ↦ ground arith
  | inr live ↦ elim (Bool-cases (truthy (member "token" v))) [
    | inl given ↦ inr (v, refl, ground arith, ground arith, given, live)
    | inr absent ↦ ground arith
  ]
]

-- Where storing a complete payload throws, the result is an error and the entry stays as it was,
-- but the token of the payload is in use all the same.
pub persist_session_failed :
    (write : Writer) (now later : ℕ) (payload : Value) (s : Store)
    → is_complete payload ≡ true
    → write (json (session_of now payload)) s.session ≡ none
    → let (s', r) = persist_session write now payload s in
      (r ≡ err session_not_stored)
      × (s'.session ≡ s.session)
      × ((get_auth_token later s').1 ≡ member "token" payload)
unfolding persist_session get_auth_token
persist_session_failed write now later payload s c w = ground arith

-- An incomplete payload is refused and changes nothing, whatever the browser does; a complete one
-- returns the payload or the storage error, and never fails otherwise.
pub persist_session_outcome :
    (write : Writer) (now : ℕ) (payload : Value) (s : Store)
    → let (s', r) = persist_session write now payload s in
      ((is_complete payload ≡ false) × (s' ≡ s) × (r ≡ err session_incomplete))
      ⊎ ((is_complete payload ≡ true)
          × (s'.auth_token ≡ member "token" payload)
          × ((r ≡ ok payload) ⊎ (r ≡ err session_not_stored)))
unfolding persist_session
persist_session_outcome write now payload s = ground arith

-- Signing out, by a falsy token, empties the variable and the entry, and no later `getAuthToken` or
-- page load brings a token back.
pub set_auth_token_falsy :
    (token : Value) (s : Store) (now later : ℕ)
    → truthy token ≡ false
    → let s' = set_auth_token token s in
      (s' ≡ cleared) × ((get_auth_token now s').1 ≡ str "") × (load_page later s'.session ≡ cleared)
unfolding set_auth_token get_auth_token load_page
set_auth_token_falsy token s now later f = ground arith

-- Once the session's `expires_at` has passed, a page load no longer takes the token, but the page
-- that signed in goes on giving it out: `getAuthToken` looks at the expiry only when it restores.
get_auth_token_outlives :
    (now later : ℕ) (payload : Value) (token : String) (s : Store)
    → is_complete payload ≡ true
    → member "token" payload ≡ str token
    → is_truthy (expires_at now payload) ≡ true
    → le (expires_at now payload) (pos later) ≡ true
    → let s' = (persist_session faithful now payload s).0 in
      (load_page later s'.session ≡ cleared) × ((get_auth_token later s').1 ≡ str token)
get_auth_token_outlives now later payload token s c t e o = ground (
  arith,
  load_page-persist_session now later payload token s c t,
  persist_session_stores now later payload token s c t,
)

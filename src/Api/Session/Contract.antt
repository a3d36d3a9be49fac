-- ===== src/Api/Session/Contract.antt =====
-- What the session of frontend/src/api.js promises: the last complete sign-in, until signing out or
-- until a page load after its end; and the functions of the module, as operations in any order.
pub mod Refinement
use synora_hackathon.Prelude.{ℕ, Bool, ◌&&◌, Option, none, some, List, [], ◌∷◌, if◌then◌else◌}
use synora_hackathon.Js.Number.{pos, le, is_truthy}
use synora_hackathon.Js.Value.{Value, null, str, member}
use synora_hackathon.Api.Base.{json, Store, faithful}
use synora_hackathon.Api.Session.{
  is_complete, expires_at, session_of, persist_session, cleared, set_auth_token, get_auth_token,
  load_page,
}

-- A sign-in: what the server sent, and when.
pub record SignIn : Type 0 where
  pub payload : Value
  pub since : ℕ

pub data Operation : Type 0 where
  sign_in : (now : ℕ) → Value → Operation
  sign_out : Operation
  reload : (now : ℕ) → Operation
  read_token : (now : ℕ) → Operation

-- The end of a session has come.
abbrev pub is_over : ℕ → SignIn → Bool
is_over now x = let ends = expires_at x.since x.payload in is_truthy ends && le ends (pos now)

abbrev pub reloaded : ℕ → Option SignIn → Option SignIn
reloaded now none = none
reloaded now (some x) = if is_over now x then none else some x

-- The contract: an operation on the session that there is, if any.
unfoldable pub promise : Operation → Option SignIn → Option SignIn
promise (sign_in now payload) x =
    if is_complete payload then some (record { payload = payload; since = now }) else x
promise sign_out x = none
promise (reload now) x = reloaded now x
promise (read_token now) x = x

unfoldable pub promises : List Operation → Option SignIn → Option SignIn
promises [] x = x
promises (op ∷ ops) x = promises ops (promise op x)

-- What a client sees of the contract.
unfoldable pub token_of : Option SignIn → Value
token_of none = str ""
token_of (some x) = member "token" x.payload

unfoldable pub user_of : Option SignIn → Value
user_of none = null
user_of (some x) = member "user" x.payload

-- The code: the operation on the variable and the entry, in a browser that stores.
unfoldable pub perform : Operation → Store → Store
unfolding persist_session set_auth_token load_page get_auth_token
perform (sign_in now payload) s = (persist_session faithful now payload s).0
perform sign_out s = set_auth_token (str "") s
perform (reload now) s = load_page now s.session
perform (read_token now) s = (get_auth_token now s).0

unfoldable pub performs : List Operation → Store → Store
performs [] s = s
performs (op ∷ ops) s = performs ops (perform op s)

-- How the code keeps a session.
abbrev pub store_of : Option SignIn → Store
store_of none = cleared
store_of (some x) = record {
  auth_token = member "token" x.payload;
  session = some (json (session_of x.since x.payload));
}

-- ===== src/Api/Base.antt =====
-- The types of frontend/src/api.js: its errors, the module's variable and the browser's storage, and
-- what passes over the network. Storing, the network and the clock are arguments of the functions.
use Prim.Native.String.{◌++◌}
use synora_hackathon.Prelude.{
  ℕ, ◌≡◌, refl, ◌⊎◌, inl, inr, ◌&&◌, Bool, Option, none, some, String, leb,
}
use synora_hackathon.Js.Value.{Value, undefined, piece, str}

-- An `Error` with the properties that the client sets on one; `retry_after` is `retryAfter`.
pub record Error : Type 0 where
  pub message : String
  pub code : Value
  pub status : Option ℕ
  pub retry_after : Value

abbrev pub plain_error : String → Error
plain_error text = record {
  message = text;
  code = undefined;
  status = none;
  retry_after = undefined;
}

abbrev pub coded_error : String → String → Error
coded_error text name = record {
  message = text;
  code = str name;
  status = none;
  retry_after = undefined;
}

pub data Result {ℓ} (A : Type ℓ) : Type ℓ where
  ok : A → Result A
  err : Error → Result A

pub Result-cases {ℓ} :
    {A : Type ℓ} (r : Result A) → ((a : A) × (r ≡ ok a)) ⊎ ((e : Error) × (r ≡ err e))
Result-cases (ok a) = inl (a, refl)
Result-cases (err e) = inr (e, refl)

infixl 5 ◌>>=◌
abbrev pub ◌>>=◌ {ℓ κ} : {A : Type ℓ} {B : Type κ} → Result A → (A → Result B) → Result B
ok a >>= f = f a
err e >>= f = err e

-- A text in sessionStorage, kept as what `JSON.parse` makes of it.
pub data Cell : Type 0 where
  json : Value → Cell
  not_json : String → Cell

-- The module's `authToken`, and the entry of sessionStorage under SESSION_KEY.
pub record Store : Type 0 where
  pub auth_token : Value
  pub session : Option Cell

-- What `setItem` leaves in the entry, given the new text and the old entry; `none` when it throws.
abbrev pub Writer : Type 0
Writer = Cell → Option Cell → Option (Option Cell)

-- A browser that stores what it is given.
abbrev pub faithful : Writer
faithful c old = some (some c)

-- A browser with its storage disabled.
abbrev pub disabled : Writer
disabled c old = none

pub data Method : Type 0 where
  get post : Method

-- A request: its path behind API_BASE, the Authorization header if it has one, and the JSON body.
pub record Request : Type 0 where
  pub method : Method
  pub path : String
  pub authorization : Option String
  pub body : Value

-- `body` is `none` where `response.json()` rejects.
pub record Response : Type 0 where
  pub status : ℕ
  pub body : Option Value
  pub retry_header : Option String

-- `response.ok`.
abbrev pub is_ok : Response → Bool
is_ok r = leb 200 r.status && leb r.status 299

pub data Fetched : Type 0 where
  unreachable : Error → Fetched
  response : Response → Fetched

abbrev pub Network : Type 0
Network = Request → Fetched

-- `['Bearer', token].join(' ')`.
abbrev pub bearer : Value → String
bearer token = "Bearer " ++ piece token

-- ===== src/Api/Request/Laws.antt =====
-- The outcomes of the requests of frontend/src/api.js.
use synora_hackathon.Prelude.{
  ℕ, ◌≡◌, refl, ◌⊎◌, inl, inr, true, false, some, String, arith, Bool-cases, Option-cases,
}
use synora_hackathon.Js.Value.{Value, member, obj, end}
use synora_hackathon.Api.Base.{
  Error, Result, err, Store, Writer, Response, is_ok, Fetched, unreachable, response, Network,
}
use synora_hackathon.Api.Session.{is_complete, persist_session, session_incomplete}
use synora_hackathon.Api.Request.{
  network_error, response_error, parsed_or_empty, json_response, post_request, auth_answer,
  login_body, signed_in, login,
}

-- What a sign-in leaves behind, given the server's answer.
abbrev pub SignInOutcome : Fetched → Store → Store → Result Value → Type 0
SignInOutcome fetched s s' r =
    ((s' ≡ s) × ((e : Error) × (r ≡ err e)))
    ⊎ ((x : Response) × (payload : Value) × (fetched ≡ response x)
        × (is_ok x ≡ true)
        × (x.body ≡ some payload)
        × (is_complete payload ≡ true)
        × (s'.auth_token ≡ member "token" payload))

not-is_complete-empty : is_complete (obj end) ≡ false
unfolding member
not-is_complete-empty = refl

signed_in-outcome :
    (write : Writer) (now : ℕ) (s : Store) (fetched : Fetched) (fallback : String)
    → let (s', r) = signed_in write now s (auth_answer fetched fallback) in
      SignInOutcome fetched s s' r
unfolding json_response persist_session
signed_in-outcome write now s (unreachable e) fallback = inl (refl, (network_error, refl))
signed_in-outcome write now s (response x) fallback = elim (Option-cases x.body) [
  | inl empty ↦ elim (Bool-cases (is_ok x)) [
    | inl fine ↦ inl (
      ground (arith, not-is_complete-empty),
      (session_incomplete, ground (arith, not-is_complete-empty)),
    )
    | inr refused ↦
        inl (ground arith, (response_error x (parsed_or_empty x.body) fallback, ground arith))
  ]
  | inr (payload, given) ↦ elim (Bool-cases (is_ok x)) [
    | inl fine ↦ elim (Bool-cases (is_complete payload)) [
      | inl whole ↦ inr (x, payload, refl, fine, given, whole, ground arith)
      | inr part ↦ inl (ground arith, (session_incomplete, ground arith))
    ]
    | inr refused ↦
        inl (ground arith, (response_error x (parsed_or_empty x.body) fallback, ground arith))
  ]
]

-- Signing in by a password changes the store only where the server's answer to the request with the
-- given credentials is a success whose body is a complete payload, and then the store holds that
-- payload's token; in every other case the store stays as it was and the result is an error.
pub login-outcome :
    (net : Network) (write : Writer) (now : ℕ) (email password token : String) (s : Store)
    → let (s', r) = login net write now email password token s in
      SignInOutcome (net (post_request "/auth" (login_body email password token))) s s' r
unfolding login
login-outcome net write now email password token s =
    signed_in-outcome write now s _ "Authentication failed"

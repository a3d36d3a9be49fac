-- ===== src/Api/Session/Contract/Refinement.antt =====
-- The functions of frontend/src/api.js against the contract of its session.
use synora_hackathon.Prelude.{ℕ, ◌≡◌, refl, ap, ◌∙◌, true, Option, none, some, List, [], ◌∷◌, arith}
use synora_hackathon.Js.Value.{member, num_of}
use synora_hackathon.Api.Session.{is_complete, cleared, get_auth_token, get_session_user}
use synora_hackathon.Api.Session.Contract.{
  SignIn, Operation, sign_in, sign_out, reload, read_token, promise, promises, token_of, user_of,
  perform, performs, store_of,
}

-- A session whose payload was accepted.
abbrev IsAccepted : Option SignIn → Type 0
IsAccepted none = Unit
IsAccepted (some x) = is_complete x.payload ≡ true

promise-IsAccepted : (op : Operation) (x : Option SignIn) → IsAccepted x → IsAccepted (promise op x)
unfolding promise
promise-IsAccepted (sign_in now payload) x h = ground arith
promise-IsAccepted sign_out x h = tt
promise-IsAccepted (reload now) none h = tt
promise-IsAccepted (reload now) (some x) h = ground arith
promise-IsAccepted (read_token now) x h = h

reload-refines :
    (now : ℕ) (x : Option SignIn)
    → IsAccepted x
    → perform (reload now) (store_of x) ≡ store_of (promise (reload now) x)
unfolding perform promise member num_of
reload-refines now none h = refl
reload-refines now (some x) h = ground arith

read-refines :
    (now : ℕ) (x : Option SignIn) → IsAccepted x → (get_auth_token now (store_of x)).0 ≡ store_of x
unfolding get_auth_token
read-refines now none h = refl
read-refines now (some x) h = ground arith

perform-refines :
    (op : Operation) (x : Option SignIn)
    → IsAccepted x
    → perform op (store_of x) ≡ store_of (promise op x)
unfolding perform promise
perform-refines (sign_in now payload) x h = ground arith
perform-refines sign_out x h = refl
perform-refines (reload now) x h = reload-refines now x h
perform-refines (read_token now) x h = read-refines now x h

performs-refines :
    (ops : List Operation) (x : Option SignIn)
    → IsAccepted x
    → (performs ops (store_of x) ≡ store_of (promises ops x)) × IsAccepted (promises ops x)
unfolding performs promises
performs-refines [] x h = (refl, h)
performs-refines (op ∷ ops) x h =
    let (same, accepted) = performs-refines ops (promise op x) (promise-IsAccepted op x h) in
    (ap (performs ops) (perform-refines op x h) ∙ same, accepted)

token-store_of :
    (now : ℕ) (x : Option SignIn) → IsAccepted x → (get_auth_token now (store_of x)).1 ≡ token_of x
unfolding get_auth_token token_of
token-store_of now none h = refl
token-store_of now (some x) h = ground arith

user-store_of : (x : Option SignIn) → IsAccepted x → get_session_user (store_of x) ≡ user_of x
unfolding get_session_user user_of member
user-store_of none h = refl
user-store_of (some x) h = ground arith

-- From a fresh start, after any sign-ins, sign-outs, page loads and readings, the variable and the
-- entry hold just the session of the contract, and `getAuthToken` and `getSessionUser` give its token
-- and its user, in a browser that stores what it is given.
pub performs-keep_promises :
    (ops : List Operation) (now : ℕ)
    → let s = performs ops cleared in
      (s ≡ store_of (promises ops none))
      × ((get_auth_token now s).1 ≡ token_of (promises ops none))
      × (get_session_user s ≡ user_of (promises ops none))
performs-keep_promises ops now =
    let (same, accepted) = performs-refines ops none tt in
    (
      same,
      ap (λ s. (get_auth_token now s).1) same ∙ token-store_of now (promises ops none) accepted,
      ap get_session_user same ∙ user-store_of (promises ops none) accepted,
    )

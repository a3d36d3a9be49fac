-- ===== src/Auth/Describe/Laws.antt =====
-- The wait that a refusal for too many requests announces.
use Prim.Native.String.{String}
use synora_hackathon.Prelude.{ℕ, suc, ◌+◌, ◌*◌, ◌/◌, ◌-◌, ap, ◌∙◌, some, ◌≤◌, ◌<◌, ◌≡◌, refl, arith}
use synora_hackathon.Js.Number.{Num, pos, ceil_div}
use synora_hackathon.Js.Value.{Value, num, or_else, member, num_of}
use synora_hackathon.Api.Base.{Error, Response}
use synora_hackathon.Api.Request.{header_value, response_error}
use synora_hackathon.Auth.Describe.{
  has_status, wait_minutes, describe_auth_error, too_many_attempts,
}

ceil_minutes :
    (n : ℕ)
    → (m : ℕ) × (ceil_div (pos (suc n)) 60 ≡ pos m) × (suc n ≤ m * 60) × (m * 60 < suc n + 60)
ceil_minutes n = ((suc n + 60 - 1) / 60, refl, omega arith, omega arith)

describe_auth_error-429 :
    (e : Error) (k : Num)
    → e.status ≡ some 429
    → num_of (or_else e.retry_after (num (pos 60))) ≡ k
    → describe_auth_error e ≡ too_many_attempts (ceil_div k 60)
unfolding describe_auth_error has_status wait_minutes
describe_auth_error-429 e k h r = ground arith

-- Where the server refuses with 429 and a wait of some seconds, in the body or in the header
-- Retry-After, the message names the whole minutes that cover the wait, less than a minute over it.
pub describe_auth_error-wait :
    (x : Response) (payload : Value) (fallback : String) (n : ℕ)
    → x.status ≡ 429
    → num_of (
        or_else
          (member "retry_after" (member "details" (member "error" payload)))
          (or_else (header_value x.retry_header) (num (pos 0))))
      ≡ pos (suc n)
    → (m : ℕ) × (describe_auth_error (response_error x payload fallback)
        ≡ too_many_attempts (pos m))
      × (suc n ≤ m * 60)
      × (m * 60 < suc n + 60)
unfolding num_of
describe_auth_error-wait x payload fallback n h r =
    let (m, e, lower, upper) = ceil_minutes n in
    (
      m,
      describe_auth_error-429 (response_error x payload fallback) (pos (suc n)) (ground arith)
            (ground arith)
          ∙ ap too_many_attempts e,
      lower,
      upper,
    )

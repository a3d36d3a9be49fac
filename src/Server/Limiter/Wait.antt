-- ===== src/Server/Limiter/Wait.antt =====
-- What a refused visitor is told, and when the limiter lets the visitor in again.
use synora_hackathon.Prelude.{
  ℕ, zero, suc, ◌+◌, ◌-◌, ◌/◌, ◌≤◌, ◌<◌, ◌≡◌, refl, ap, true, false, some, String, arith, eq_refl,
}
use synora_hackathon.Js.Number.{pos}
use synora_hackathon.Js.Value.{member}
use synora_hackathon.Api.Base.{Error, err}
use synora_hackathon.Api.Request.{json_response}
use synora_hackathon.Auth.Describe.{
  has_status, wait_minutes, describe_auth_error, too_many_attempts,
}
use synora_hackathon.Server.Limiter.{
  LimitEntry, Limiter, allow_entry, allow, retry_seconds, rate_limited,
}

-- A refusal, and the wait that it names.
refused :
    (now max : ℕ) (e : LimitEntry)
    → e.at ≤ now
    → (allow_entry now max (some e)).1 ≡ false
    → (allow_entry now max (some e) ≡ (some e, false, retry_seconds now e))
      × (0 < retry_seconds now e)
      × (retry_seconds now e ≤ 60)
unfolding allow_entry
refused now max e h r = ground arith

one_minute : (n : ℕ) → 0 < n → n ≤ 60 → (n + 60 - 1) / 60 ≡ 1
one_minute n h k = omega arith

told :
    (n : ℕ) (fallback : String)
    → 0 < n
    → n ≤ 60
    → (e : Error) × (json_response (rate_limited n) fallback ≡ err e)
      × (describe_auth_error e ≡ too_many_attempts (pos 1))
unfolding json_response describe_auth_error wait_minutes has_status member
told zero fallback h k = absurd (omega arith)
told (suc n) fallback h k = (_, refl, ap (λ m. too_many_attempts (pos m)) (one_minute (suc n) h k))

expired :
    (later max : ℕ) (e : LimitEntry)
    → e.at + 60000 ≤ later
    → (allow_entry later max (some e)).1 ≡ true
unfolding allow_entry
expired later max e h = ground arith

-- Take a key with an entry that is not from the future, and a request of it that the limiter refuses. On
-- the answer, the client tells the visitor to wait one minute, and the first request of the key after a
-- minute passes.
pub allow-wait :
    (now : ℕ) (k : String) (l : Limiter) (e : LimitEntry) (fallback : String) (later : ℕ)
    → l.m k ≡ some e
    → e.at ≤ now
    → (allow now k l).1 ≡ false
    → now + 60000 ≤ later
    → let (l', ok, retry) = allow now k l in
      (r : Error) × (json_response (rate_limited retry) fallback ≡ err r)
      × (describe_auth_error r ≡ too_many_attempts (pos 1))
      × ((allow later k l').1 ≡ true)
unfolding allow
allow-wait now k l e fallback later there past refusal after =
    let (same, low, high) = refused now l.max e past (rw there at refusal) in
    let (r, json, words) = told (retry_seconds now e) fallback low high in
    rw (there, same, eq_refl k) (r, json, words, expired later l.max e (omega arith))

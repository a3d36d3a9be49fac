-- ===== src/Terminal/Clock/Laws.antt =====
-- How far the countdown is from the time that is left.
use synora_hackathon.Prelude.{ℕ, ◌+◌, ◌*◌, ◌/◌, ◌%◌, ◌≤◌, ◌<◌, ◌≡◌, ap, Bool, arith}
use synora_hackathon.Js.Number.{pos}
use synora_hackathon.Terminal.Clock.{clock_parts, layout, clock}

-- The countdown is at most 50 milliseconds away from the time left, whichever way ties go.
pub clock_parts_near :
    (up : ℕ → Bool) (n : ℕ)
    → let (m, t) = clock_parts up n in
      (n ≤ m * 60000 + t * 100 + 50) × (m * 60000 + t * 100 ≤ n + 50)
unfolding clock_parts
clock_parts_near up n = ground arith

clock_parts-sixty :
    (up : ℕ → Bool) (n : ℕ) → 59950 < n % 60000 → clock_parts up n ≡ (n / 60000, 600)
unfolding clock_parts
clock_parts-sixty up n h = ground arith

-- In the last 49 milliseconds before a full minute it shows sixty seconds and not the next minute.
clock_sixty :
    (up : ℕ → Bool) (n : ℕ) → 59950 < n % 60000 → clock up (pos n) ≡ layout up (n / 60000, 600)
unfolding clock
clock_sixty up n h = ap (layout up) (clock_parts-sixty up n h)

-- Elsewhere the seconds shown stay below sixty.
pub clock_below_sixty : (up : ℕ → Bool) (n : ℕ) → n % 60000 < 59950 → (clock_parts up n).1 < 600
unfolding clock_parts
clock_below_sixty up n h = ground arith

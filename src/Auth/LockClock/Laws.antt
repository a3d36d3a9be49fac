-- ===== src/Auth/LockClock/Laws.antt =====
-- The clock of the lockout against the time that is left.
use synora_hackathon.Prelude.{ℕ, ◌+◌, ◌*◌, ◌/◌, ◌≤◌, ◌<◌, ◌≡◌, ◌∙◌, ap, refl, arith}
use synora_hackathon.Js.Number.{pos, sub}
use synora_hackathon.Auth.Screen.{Screen}
use synora_hackathon.Auth.LockClock.{split_seconds, join_parts, clock_of, lockout_clock}

split_seconds-near :
    (n : ℕ)
    → let (h, m, s) = split_seconds (n / 1000) in
      (m < 60)
      × (s < 60)
      × ((h * 3600 + m * 60 + s) * 1000 ≤ n)
      × (n < (h * 3600 + m * 60 + s) * 1000 + 1000)
unfolding split_seconds
split_seconds-near n = ground arith

sub_left : (now left : ℕ) → sub (pos (now + left)) (pos now) ≡ pos left
sub_left now left = ground arith

clock_of-pos : (n : ℕ) → clock_of (pos n) ≡ join_parts (split_seconds (n / 1000))
unfolding clock_of
clock_of-pos n = refl

lockout_clock_left :
    (now left : ℕ) (screen : Screen)
    → screen.lockout_ends ≡ pos (now + left)
    → lockout_clock now screen ≡ join_parts (split_seconds (left / 1000))
unfolding lockout_clock
lockout_clock_left now left screen h =
    ap (λ e. clock_of (sub e (pos now))) h ∙ ap clock_of (sub_left now left) ∙ clock_of-pos left

-- While the lockout lasts for some more milliseconds, its clock shows hours, minutes below sixty and
-- seconds below sixty, which are at most the time that is left and less than a second under it.
pub lockout_clock-near :
    (now left : ℕ) (screen : Screen)
    → screen.lockout_ends ≡ pos (now + left)
    → (h : ℕ) × (m : ℕ) × (s : ℕ) × (lockout_clock now screen ≡ join_parts (h, m, s))
      × (m < 60)
      × (s < 60)
      × ((h * 3600 + m * 60 + s) * 1000 ≤ left)
      × (left < (h * 3600 + m * 60 + s) * 1000 + 1000)
lockout_clock-near now left screen e =
    let (h, m, s) = split_seconds (left / 1000) in
    let (minutes, seconds, lower, upper) = split_seconds-near left in
    (h, m, s, lockout_clock_left now left screen e, minutes, seconds, lower, upper)

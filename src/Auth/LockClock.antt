-- ===== src/Auth/LockClock.antt =====
-- frontend/src/AuthScreen.jsx, lines 417 to 420: the clock of the lockout.
pub mod Laws
use Prim.Native.String.{◌++◌}
use synora_hackathon.Prelude.{ℕ, ◌/◌, ◌%◌, String}
use synora_hackathon.Js.Number.{Num, nan, pos, negsuc, sub}
use synora_hackathon.Js.Text.{pad_start}
use synora_hackathon.Js.Decimal.{decimal}
use synora_hackathon.Auth.Screen.{Screen}

-- Hours, minutes and seconds.
unfoldable pub split_seconds : ℕ → ℕ × ℕ × ℕ
split_seconds n = (n / 3600, n % 3600 / 60, n % 60)

unfoldable pub two_places : ℕ → String
unfolding pad_start decimal
two_places n = pad_start 2 "0" (decimal n)

unfoldable pub join_parts : ℕ × ℕ × ℕ → String
unfolding two_places
join_parts (h, m, s) = two_places h ++ (":" ++ (two_places m ++ (":" ++ two_places s)))

-- The text for the milliseconds that are left.
unfoldable pub clock_of : Num → String
unfolding join_parts split_seconds
clock_of nan = "NaN:NaN:NaN"
clock_of (pos n) = join_parts (split_seconds (n / 1000))
clock_of (negsuc n) = join_parts (split_seconds 0)

-- `lockoutClock`.
unfoldable pub lockout_clock : ℕ → Screen → String
unfolding clock_of
lockout_clock now s = clock_of (sub s.lockout_ends (pos now))

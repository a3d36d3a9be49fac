-- ===== src/Terminal/Clock.antt =====
-- frontend/src/AuctionTerminal.jsx, line 85: the countdown. The state `remaining` is kept in
-- milliseconds, the unit of the deadline, where the code divides by 1000.
pub mod Laws
use Prim.Native.String.{◌++◌}
use synora_hackathon.Prelude.{ℕ, suc, ◌+◌, ◌*◌, ◌/◌, ◌%◌, Bool, String, ◌==◌, if◌then◌else◌}
use synora_hackathon.Js.Number.{Num, nan, pos, negsuc, neg}
use synora_hackathon.Js.Text.{pad_start}
use synora_hackathon.Js.Decimal.{decimal, text_of_num}

-- Which way `toFixed(1)` goes half-way between two tenths depends on the double next to the value:
-- `up r` says that it goes up at `r` milliseconds.
module _ (up : ℕ → Bool) where
  -- The tenths of a second nearest to `r` milliseconds.
  unfoldable pub tenths : ℕ → ℕ
  tenths r = if r % 100 == 50 then (if up r then r / 100 + 1 else r / 100) else (r + 50) / 100

  -- The minutes and the tenths of a second that the countdown shows.
  unfoldable pub clock_parts : ℕ → ℕ × ℕ
  unfolding tenths
  clock_parts n = (n / 60000, tenths (n % 60000))

  -- `toFixed(1)`, of `t` tenths.
  abbrev one_decimal : ℕ → String
  one_decimal t = decimal (t / 10) ++ ("." ++ decimal (t % 10))

  abbrev pub layout : ℕ × ℕ → String
  layout (m, t) = pad_start 2 "0" (decimal m) ++ (":" ++ pad_start 4 "0" (one_decimal t))

  -- The text of the countdown; `Math.max(0, NaN)` is `NaN`.
  unfoldable pub clock : Num → String
  unfolding clock_parts decimal pad_start text_of_num
  clock nan = "NaN:0NaN"
  clock (pos n) = layout (clock_parts n)
  clock (negsuc n) = pad_start 2 "0" (text_of_num (neg (pos ((suc n + 59999) / 60000)))) ++ ":00.0"

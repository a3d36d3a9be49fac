-- ===== src/Terminal/Amount.antt =====
-- frontend/src/AuctionTerminal.jsx, line 116: the amount in the bid form. Its sums are exact below
-- 2^53, where the numbers of the code are.
pub mod Laws
use synora_hackathon.Prelude.{ℕ, List, [], ◌∷◌, String}
use synora_hackathon.Js.Number.{pos, add}
use synora_hackathon.Js.Text.{keep, is_digit}
use synora_hackathon.Js.Decimal.{text_of_num, num_of_text}

-- The field's `onChange`: `value.replace(/\D/g, '')`.
unfoldable pub edit_amount : String → String
unfolding keep
edit_amount typed = keep is_digit typed

-- A quick bid: `String(Number(amount) + step)`.
unfoldable pub quick_bid : ℕ → String → String
unfolding text_of_num num_of_text
quick_bid step amount = text_of_num (add (num_of_text amount) (pos step))

-- What changes the amount, and any number of such changes.
pub data Change : Type 0 where
  typed : String → Change
  quick : ℕ → Change

unfoldable pub change : Change → String → String
unfolding edit_amount quick_bid
change (typed text) amount = edit_amount text
change (quick step) amount = quick_bid step amount

unfoldable pub changes : List Change → String → String
unfolding change
changes [] amount = amount
changes (c ∷ cs) amount = changes cs (change c amount)

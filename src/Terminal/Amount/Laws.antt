-- ===== src/Terminal/Amount/Laws.antt =====
-- The amount in the bid form, from the keys and buttons to the body of the request.
use Prim.Native.String.{[], ◌∷◌, ◌++◌}
use synora_hackathon.Prelude.{
  ℕ, ◌+◌, ◌≡◌, code, List, String, Bool-cases, inl, inr, sym, ap, ◌<◌, ◌^◌,
}
use mathlib.Core.Path.{subst}
use synora_hackathon.Js.Number.{Num, nan, negsuc, pos, add}
use synora_hackathon.Js.Double.{fixed_2-below}
use synora_hackathon.Js.Text.{keep, is_digit}
use synora_hackathon.Js.Decimal.{decimal, num_of_text, Digits}
use synora_hackathon.Js.Decimal.RoundTrip.{
  decimal-Digits, num_of_text-Digits, num_of_text-text_of_num,
}
use synora_hackathon.Js.Value.{Value, str, member}
use synora_hackathon.Api.Request.{to_fixed_2, bid_request}
use synora_hackathon.Terminal.Amount.{edit_amount, quick_bid, Change, typed, quick, change, changes}

-- A number that the code has exactly.
abbrev IsBelow : Num → Type 0
IsBelow nan = ⊥
IsBelow (pos n) = n < 2 ^ 53
IsBelow (negsuc n) = ⊥

keep-Digits : (s : String) → Digits (keep is_digit s)
unfolding keep
keep-Digits [] = tt
keep-Digits (c ∷ s) = elim (Bool-cases (is_digit (code c))) [
  | inl d ↦ rw d (d, keep-Digits s)
  | inr o ↦ rw o (keep-Digits s)
]

-- A quick bid on a text of digits is the decimal text of the sum.
quick_bid-sum :
    (step n : ℕ) (amount : String)
    → num_of_text amount ≡ pos n
    → quick_bid step amount ≡ decimal (n + step)
unfolding quick_bid
quick_bid-sum step n amount e = rw e

change-Digits : (c : Change) (amount : String) → Digits amount → Digits (change c amount)
unfolding change
change-Digits (typed text) amount h = unfold edit_amount in keep-Digits text
change-Digits (quick step) amount h =
    let (n, e) = num_of_text-Digits amount h in
    subst Digits (sym (quick_bid-sum step n amount e)) (decimal-Digits (n + step))

pub changes-Digits :
    (cs : List Change) (amount : String) → Digits amount → Digits (changes cs amount)
unfolding changes
changes-Digits List.[] amount h = h
changes-Digits (List.◌∷◌ c cs) amount h =
    changes-Digits cs (change c amount) (change-Digits c amount h)

-- A quick bid raises the number that the form holds by its step.
pub num_of_text-quick_bid :
    (step : ℕ) (amount : String)
    → num_of_text (quick_bid step amount) ≡ add (num_of_text amount) (pos step)
unfolding quick_bid
num_of_text-quick_bid step amount = num_of_text-text_of_num (add (num_of_text amount) (pos step))

-- The form's number stays below 2^53, before and after each of the changes.
abbrev pub IsExact : List Change → String → Type 0
IsExact List.[] amount = IsBelow (num_of_text amount)
IsExact (List.◌∷◌ c cs) amount = IsBelow (num_of_text amount) × IsExact cs (change c amount)

IsExact-last :
    (cs : List Change) (amount : String)
    → IsExact cs amount
    → IsBelow (num_of_text (changes cs amount))
unfolding changes
IsExact-last List.[] amount h = h
IsExact-last (List.◌∷◌ c cs) amount (h, hs) = IsExact-last cs (change c amount) hs

to_fixed_2-below : (n : ℕ) → IsBelow (pos n) → to_fixed_2 (pos n) ≡ decimal n ++ ".00"
unfolding to_fixed_2
to_fixed_2-below n h = fixed_2-below n h

-- Take an amount of digits, and anything typed, pasted or added by the buttons, as long as the form's number
-- stays below 2^53. The bid that is sent carries the form's number as digits with two zero decimals.
pub bid_request-changes :
    (cs : List Change) (amount auction_id : String) (token : Value)
    → Digits amount
    → IsExact cs amount
    → (n : ℕ) × (num_of_text (changes cs amount) ≡ pos n)
      × (member "amount" (bid_request auction_id (changes cs amount) token).body
          ≡ str (decimal n ++ ".00"))
unfolding member
bid_request-changes cs amount auction_id token h below =
    let (n, e) = num_of_text-Digits (changes cs amount) (changes-Digits cs amount h) in
    let low : IsBelow (pos n) = rw e at (IsExact-last cs amount below) in
    (n, e, rw e (ap str (to_fixed_2-below n low)))

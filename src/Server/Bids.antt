-- ===== src/Server/Bids.antt =====
-- backend/internal/handlers/handlers.go, `bid`: the checks of a bid's body, before the database. The
-- check of an id, by a UUID library, is the argument `is_uuid`.
use Prim.Native.String.{[], ◌∷◌}
use synora_hackathon.Prelude.{
  ℕ, zero, suc, Bool, true, false, ◌&&◌, code, Option, none, some, String, ◌==◌, if◌then◌else◌,
}
use synora_hackathon.Js.Text.{lower, is_digit}
use synora_hackathon.Js.Value.{Value, null, str, obj, Fields, end, field}

-- Names that differ in the case of ASCII letters only.
abbrev pub same_fold : String → String → Bool
same_fold [] [] = true
same_fold [] (d ∷ t) = false
same_fold (c ∷ s) [] = false
same_fold (c ∷ s) (d ∷ t) = lower (code c) == lower (code d) && same_fold s t

pub record BidInput : Type 0 where
  pub auction_id : String
  pub amount : String

abbrev set_id : Value → BidInput → Option BidInput
set_id (str s) b = some (record b { auction_id = s })
set_id null b = some b
set_id _ b = none

abbrev set_amount : Value → BidInput → Option BidInput
set_amount (str s) b = some (record b { amount = s })
set_amount null b = some b
set_amount _ b = none

infixl 5 ◌>>=◌
abbrev ◌>>=◌ : Option BidInput → (BidInput → Option BidInput) → Option BidInput
none >>= f = none
some b >>= f = f b

-- `decode` into `struct{ AuctionID, Amount string }` with unknown fields disallowed: a key goes to
-- the field of its name up to case, and any other key is an error.
unfoldable pub decode_fields : Fields → BidInput → Option BidInput
decode_fields end b = some b
decode_fields (field key v fs) b = do
  b' ←
      if same_fold key "AuctionID"
      then set_id v b
      else if same_fold key "Amount"
      then set_amount v b
      else none
  decode_fields fs b'

unfoldable pub decode_bid : Value → Option BidInput
unfolding decode_fields
decode_bid (obj fs) = decode_fields fs (record { auction_id = ""; amount = "" })
decode_bid null = some (record { auction_id = ""; amount = "" })
decode_bid _ = none

-- `^[0-9]{1,10}\.[0-9]{2}$`, after `k` of at most ten digits.
abbrev two_digits : String → Bool
two_digits (c ∷ (d ∷ [])) = is_digit (code c) && is_digit (code d)
two_digits _ = false

unfoldable pub digits_then_cents : ℕ → String → Bool
digits_then_cents left [] = false
digits_then_cents zero (c ∷ s) = code c == b'.' && two_digits s
digits_then_cents (suc left) (c ∷ s) =
    let rest = digits_then_cents left s in
    if is_digit (code c) then rest else code c == b'.' && two_digits s

-- `amountPattern`.
unfoldable pub is_amount : String → Bool
unfolding digits_then_cents
is_amount [] = false
is_amount (c ∷ s) = is_digit (code c) && digits_then_cents 9 s

-- ===== src/Js/Decimal.antt =====
-- `String(n)` and `Number(text)` on whole numbers.
pub mod RoundTrip
use Prim.Native.String.{[], ◌∷◌}
use synora_hackathon.Prelude.{
  ℕ, zero, suc, ◌+◌, ◌-◌, ◌*◌, ◌/◌, ◌%◌, ◌≡◌, refl, Bool, true, false, ◌&&◌, Option, none, some,
  Char, code, String, ltb, leb, ◌==◌, if◌then◌else◌,
}
use synora_hackathon.Js.Number.{Num, nan, pos, negsuc, neg}
use synora_hackathon.Js.Text.{trim, is_digit}

pub digit : ℕ → Char
digit zero = "0"
digit (suc zero) = "1"
digit (suc (suc zero)) = "2"
digit (suc (suc (suc zero))) = "3"
digit (suc (suc (suc (suc zero)))) = "4"
digit (suc (suc (suc (suc (suc zero))))) = "5"
digit (suc (suc (suc (suc (suc (suc zero)))))) = "6"
digit (suc (suc (suc (suc (suc (suc (suc zero))))))) = "7"
digit (suc (suc (suc (suc (suc (suc (suc (suc zero)))))))) = "8"
digit (suc (suc (suc (suc (suc (suc (suc (suc (suc n))))))))) = "9"

emit : ℕ → ℕ → String → String
emit zero n out = out
emit (suc fuel) n out =
    let rest = emit fuel (n / 10) (digit (n % 10) ∷ out) in if ltb n 10 then digit n ∷ out else rest

-- The decimal digits; the fuel is above the number, and each round divides by ten.
unfoldable pub decimal : ℕ → String
unfolding emit digit
decimal n = emit (suc n) n []

-- `String(n)`.
unfoldable pub text_of_num : Num → String
unfolding decimal
text_of_num nan = "NaN"
text_of_num (pos n) = decimal n
text_of_num (negsuc n) = "-" ∷ decimal (suc n)

-- The value of a text of digits, after `acc`.
unfoldable pub scan : ℕ → String → Option ℕ
scan acc [] = some acc
scan acc (c ∷ s) =
    let rest = scan (acc * 10 + (code c - b'0')) s in if is_digit (code c) then rest else none

abbrev num_or_nan : Option ℕ → Num
num_or_nan none = nan
num_or_nan (some n) = pos n

-- At least one digit.
unsigned : String → Num
unfolding scan
unsigned [] = nan
unsigned (c ∷ s) = num_or_nan (scan 0 (c ∷ s))

read_trimmed : String → Num
unfolding unsigned
read_trimmed [] = pos 0
read_trimmed (c ∷ s) =
    if code c == b'-'
    then neg (unsigned s)
    else if code c == b'+'
    then unsigned s
    else unsigned (c ∷ s)

-- `Number(text)`.
unfoldable pub num_of_text : String → Num
unfolding read_trimmed trim
num_of_text s = read_trimmed (trim s)

-- A text of digits only.
abbrev pub Digits : String → Type 0
Digits [] = Unit
Digits (c ∷ s) = (is_digit (code c) ≡ true) × Digits s

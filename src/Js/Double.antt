-- ===== src/Js/Double.antt =====
-- `n.toFixed(2)` of the double that is nearest to a whole number.
use Prim.Native.String.{[], ◌∷◌, ◌++◌}
use synora_hackathon.Prelude.{
  ℕ, zero, suc, ◌+◌, ◌-◌, ◌*◌, ◌/◌, ◌%◌, ◌^◌, Bool, true, ◌||◌, ◌&&◌, code, String, ltb, leb, ◌==◌,
  ◌≡◌, ◌<◌, refl, ltb-true, if◌then◌else◌,
}
use synora_hackathon.Js.Text.{is_empty, length}
use synora_hackathon.Js.Decimal.{decimal}

-- How often a number is halved until it has at most 53 bits.
unfoldable pub halvings : (fuel : ℕ) → ℕ → ℕ
halvings zero n = 0
halvings (suc fuel) n = let more = halvings fuel (n / 2) in if ltb n (2 ^ 53) then 0 else suc more

-- `q` units and `r` more of `unit`, to the nearest number of units, and to the even one of two.
abbrev nearest : (q r unit : ℕ) → ℕ
nearest q r unit = if ltb unit (2 * r) || (2 * r == unit && q % 2 == 1) then suc q else q

-- The double of a number below the largest of them, which 971 halvings bring to 53 bits.
unfoldable pub double : ℕ → ℕ
unfolding halvings
double n = let unit = 2 ^ halvings 971 n in nearest (n / unit) (n % unit) unit * unit

-- The digits without the zeros at their end.
unfoldable pub strip_zeros : String → String
strip_zeros [] = []
strip_zeros (c ∷ s) =
    let rest = strip_zeros s in if is_empty rest && code c == b'0' then [] else c ∷ rest

abbrev with_point : String → String
with_point [] = []
with_point s = "." ++ s

-- `q` times ten to the power of `e`, as one digit, the others, and an exponent.
abbrev scientific : (q e : ℕ) → String → String
scientific q e [] = []
scientific q e (c ∷ s) = c ∷ (with_point (strip_zeros s) ++ ("e+" ++ decimal (length s + e)))

-- The first `p` of `d` digits that are enough to read `x` back, from `p` on; seventeen are.
unfoldable pub shortest : (fuel p : ℕ) → (x d : ℕ) → String
unfolding double strip_zeros decimal
shortest zero p x d = decimal x
shortest (suc fuel) p x d =
    let longer = shortest fuel (suc p) x d in
    let unit = 10 ^ (d - p) in
    let q = (x + unit / 2) / unit in
    if double (q * unit) == x then scientific q (d - p) (decimal q) else longer

-- `toFixed(2)` from 2^53 on; it is `String(x)` from 10^21 on.
unfoldable pub fixed_beyond : ℕ → String
unfolding double shortest decimal
fixed_beyond n =
    if leb (2 ^ 1024 - 2 ^ 970) n
    then "Infinity"
    else if ltb (double n) (10 ^ 21)
    then decimal (double n) ++ ".00"
    else shortest 17 1 (double n) (length (decimal (double n)))

unfoldable pub fixed_2 : ℕ → String
fixed_2 n = if ltb n (2 ^ 53) then decimal n ++ ".00" else fixed_beyond n

if-true : (b : Bool) (s t : String) → b ≡ true → (if b then s else t) ≡ s
if-true b s t h = rw h refl

-- Below 2^53 nothing is rounded.
pub fixed_2-below : (n : ℕ) → n < 2 ^ 53 → fixed_2 n ≡ decimal n ++ ".00"
unfolding fixed_2
fixed_2-below n h =
    if-true (ltb n (2 ^ 53)) (decimal n ++ ".00") (fixed_beyond n) (ltb-true n (2 ^ 53) h)

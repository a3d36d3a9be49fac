-- ===== src/Js/Number.antt =====
-- The numbers of the client: whole numbers (milliseconds, counts, statuses, prices in the bid
-- form), exact as a double holds them up to 2^53, and `NaN`.
use synora_hackathon.Prelude.{
  ℕ, zero, suc, ◌+◌, ◌-◌, ◌*◌, ◌/◌, Bool, true, false, ltb, leb, ◌==◌, if◌then◌else◌,
}

-- `negsuc n` is -(n + 1).
pub data Num : Type 0 where
  nan : Num
  pos : ℕ → Num
  negsuc : ℕ → Num

-- a - b
abbrev pub sub_ℕ : ℕ → ℕ → Num
sub_ℕ a b = if leb b a then pos (a - b) else negsuc (b - a - 1)

abbrev pub add : Num → Num → Num
add nan b = nan
add (pos m) nan = nan
add (pos m) (pos n) = pos (m + n)
add (pos m) (negsuc n) = sub_ℕ m (suc n)
add (negsuc m) nan = nan
add (negsuc m) (pos n) = sub_ℕ n (suc m)
add (negsuc m) (negsuc n) = negsuc (suc (m + n))

abbrev pub neg : Num → Num
neg nan = nan
neg (pos zero) = pos 0
neg (pos (suc n)) = negsuc n
neg (negsuc n) = pos (suc n)

abbrev pub sub : Num → Num → Num
sub a b = add a (neg b)

-- The product with a positive number.
abbrev pub scale : ℕ → Num → Num
scale k nan = nan
scale k (pos n) = pos (n * k)
scale k (negsuc n) = neg (pos (suc n * k))

-- `a < b` and `a <= b`; both are false at `NaN`.
abbrev pub lt : Num → Num → Bool
lt nan b = false
lt (pos m) nan = false
lt (pos m) (pos n) = ltb m n
lt (pos m) (negsuc n) = false
lt (negsuc m) nan = false
lt (negsuc m) (pos n) = true
lt (negsuc m) (negsuc n) = ltb n m

abbrev pub le : Num → Num → Bool
le nan b = false
le (pos m) nan = false
le (pos m) (pos n) = leb m n
le (pos m) (negsuc n) = false
le (negsuc m) nan = false
le (negsuc m) (pos n) = true
le (negsuc m) (negsuc n) = leb n m

-- `Math.max(0, a)`.
abbrev pub max_zero : Num → Num
max_zero nan = nan
max_zero (pos n) = pos n
max_zero (negsuc n) = pos 0

-- `Math.ceil(a / k)` for a positive `k`; -0 counts as 0.
abbrev pub ceil_div : Num → ℕ → Num
ceil_div nan k = nan
ceil_div (pos n) k = pos ((n + k - 1) / k)
ceil_div (negsuc n) k = neg (pos (suc n / k))

-- A number is falsy when it is 0 or `NaN`.
abbrev pub is_truthy : Num → Bool
is_truthy nan = false
is_truthy (pos zero) = false
is_truthy (pos (suc n)) = true
is_truthy (negsuc n) = true

-- `===` between numbers.
abbrev pub is_same : Num → Num → Bool
is_same nan b = false
is_same (pos m) nan = false
is_same (pos m) (pos n) = m == n
is_same (pos m) (negsuc n) = false
is_same (negsuc m) nan = false
is_same (negsuc m) (pos n) = false
is_same (negsuc m) (negsuc n) = m == n

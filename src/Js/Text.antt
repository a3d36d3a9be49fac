-- ===== src/Js/Text.antt =====
-- The string methods that the client calls, on texts walked character by character.
use Prim.Native.String.{[], ◌∷◌}
use synora_hackathon.Prelude.{
  ℕ, zero, suc, ◌+◌, ◌-◌, Bool, true, false, ◌&&◌, ◌||◌, Char, code, String, ltb, leb, ◌==◌,
  if◌then◌else◌,
}

-- `length`: the UTF-16 units.
abbrev pub length : String → ℕ
length [] = 0
length (c ∷ s) = (if ltb (code c) 0x10000 then 1 else 2) + length s

abbrev pub is_empty : String → Bool
is_empty [] = true
is_empty (c ∷ s) = false

-- White space, as `trim` and the regular expressions' `\s` have it.
abbrev pub is_space : ℕ → Bool
is_space n =
    (leb 9 n && leb n 13)
    || n == 32
    || n == 0xa0
    || n == 0x1680
    || (leb 0x2000 n && leb n 0x200a)
    || n == 0x2028
    || n == 0x2029
    || n == 0x202f
    || n == 0x205f
    || n == 0x3000
    || n == 0xfeff

unfoldable pub trim_start : String → String
trim_start [] = []
trim_start (c ∷ s) = let rest = trim_start s in if is_space (code c) then rest else c ∷ s

-- A character goes if it is a space and nothing is left behind it.
abbrev keep_unless : Bool → Char → String → String
keep_unless true c [] = []
keep_unless true c (d ∷ s) = c ∷ (d ∷ s)
keep_unless false c s = c ∷ s

unfoldable pub trim_end : String → String
trim_end [] = []
trim_end (c ∷ s) = keep_unless (is_space (code c)) c (trim_end s)

unfoldable pub trim : String → String
unfolding trim_start trim_end
trim s = trim_end (trim_start s)

unfoldable pub starts_with : String → String → Bool
starts_with s [] = true
starts_with [] (d ∷ t) = false
starts_with (c ∷ s) (d ∷ t) = code c == code d && starts_with s t

-- `s.includes(t)`.
unfoldable pub includes : String → String → Bool
unfolding starts_with
includes [] t = starts_with [] t
includes (c ∷ s) t = starts_with (c ∷ s) t || includes s t

-- `toLowerCase` on the ASCII letters.
abbrev pub lower : ℕ → ℕ
lower c = if leb b'A' c && leb c b'Z' then c + 32 else c

unfoldable pub starts_with_lower : String → String → Bool
starts_with_lower s [] = true
starts_with_lower [] (d ∷ t) = false
starts_with_lower (c ∷ s) (d ∷ t) = lower (code c) == code d && starts_with_lower s t

-- `s.toLowerCase().includes(t)`.
unfoldable pub includes_lower : String → String → Bool
unfolding starts_with_lower
includes_lower [] t = starts_with_lower [] t
includes_lower (c ∷ s) t = starts_with_lower (c ∷ s) t || includes_lower s t

-- `/p/.test(s)` for a class of characters.
unfoldable pub any : (ℕ → Bool) → String → Bool
any p [] = false
any p (c ∷ s) = p (code c) || any p s

-- The characters of a class, in order.
unfoldable pub keep : (ℕ → Bool) → String → String
keep p [] = []
keep p (c ∷ s) = if p (code c) then c ∷ keep p s else keep p s

abbrev pub is_digit : ℕ → Bool
is_digit c = leb b'0' c && leb c b'9'

abbrev pub is_upper : ℕ → Bool
is_upper c = leb b'A' c && leb c b'Z'

abbrev pub is_lower : ℕ → Bool
is_lower c = leb b'a' c && leb c b'z'

-- `k` copies of a character in front: what `padStart` adds.
abbrev pub fill : ℕ → Char → String → String
fill zero c s = s
fill (suc k) c s = c ∷ fill k c s

-- `s.padStart(width, c)`.
unfoldable pub pad_start : ℕ → Char → String → String
pad_start width c s = fill (width - length s) c s

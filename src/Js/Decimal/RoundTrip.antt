-- ===== src/Js/Decimal/RoundTrip.antt =====
-- Reading back what was printed.
use Prim.Native.String.{[], ◌∷◌}
use synora_hackathon.Prelude.{
  ℕ, zero, suc, ◌+◌, ◌-◌, ◌*◌, ◌/◌, ◌%◌, ◌<◌, ◌≡◌, refl, ap, ◌∙◌, true, false, some, code, String,
  arith, Bool-cases, inl, inr, ltb,
}
use synora_hackathon.Js.Number.{Num, nan, pos, negsuc}
use synora_hackathon.Js.Text.{trim, trim_start, trim_end, is_digit, is_space}
use synora_hackathon.Js.Decimal.{
  Digits, digit, emit, decimal, scan, unsigned, read_trimmed, text_of_num, num_of_text,
}

code-digit : (n : ℕ) → n < 10 → code (digit n) ≡ 48 + n
unfolding digit
code-digit zero h = refl
code-digit (suc zero) h = refl
code-digit (suc (suc zero)) h = refl
code-digit (suc (suc (suc zero))) h = refl
code-digit (suc (suc (suc (suc zero)))) h = refl
code-digit (suc (suc (suc (suc (suc zero))))) h = refl
code-digit (suc (suc (suc (suc (suc (suc zero)))))) h = refl
code-digit (suc (suc (suc (suc (suc (suc (suc zero))))))) h = refl
code-digit (suc (suc (suc (suc (suc (suc (suc (suc zero)))))))) h = refl
code-digit (suc (suc (suc (suc (suc (suc (suc (suc (suc zero))))))))) h = refl
code-digit (suc (suc (suc (suc (suc (suc (suc (suc (suc (suc n)))))))))) h = absurd (omega arith)

scan-digit :
    (acc n : ℕ) (out : String) → n < 10 → scan acc (digit n ∷ out) ≡ scan (acc * 10 + n) out
unfolding scan
scan-digit acc n out h = ground (arith, code-digit n h)

scan-emit : (fuel n : ℕ) (out : String) → n < fuel → scan 0 (emit fuel n out) ≡ scan n out
unfolding emit
scan-emit zero n out h = elim h [ ]
scan-emit (suc fuel) n out h = elim (Bool-cases (ltb n 10)) [
  | inl low ↦ rw low (scan-digit 0 n out (ground arith) ∙ ap (λ k. scan k out) (omega arith))
  | inr high ↦ rw high (
      scan-emit fuel (n / 10) (digit (n % 10) ∷ out) (ground arith)
      ∙ scan-digit (n / 10) (n % 10) out (omega arith)
      ∙ ap (λ k. scan k out) (omega arith))
]

emit-Digits : (fuel n : ℕ) (out : String) → Digits out → Digits (emit fuel n out)
unfolding emit
emit-Digits zero n out h = h
emit-Digits (suc fuel) n out h = elim (Bool-cases (ltb n 10)) [
  | inl low ↦ rw low (ground (arith, code-digit n), h)
  | inr high ↦
      rw high
        (emit-Digits fuel (n / 10) (digit (n % 10) ∷ out) (ground (arith, code-digit (n % 10)), h))
]

digit-ne-space : (c : ℕ) → is_digit c ≡ true → is_space c ≡ false
digit-ne-space c h = ground arith

trim_start-Digits : (s : String) → Digits s → trim_start s ≡ s
unfolding trim_start
trim_start-Digits [] h = refl
trim_start-Digits (c ∷ s) (d, h) = rw (digit-ne-space (code c) d)

trim_end-Digits : (s : String) → Digits s → trim_end s ≡ s
unfolding trim_end
trim_end-Digits [] h = refl
trim_end-Digits (c ∷ s) (d, h) = rw (digit-ne-space (code c) d, trim_end-Digits s h)

trim-Digits : (s : String) → Digits s → trim s ≡ s
unfolding trim
trim-Digits s h = rw (trim_start-Digits s h) (trim_end-Digits s h)

read_trimmed-Digits : (s : String) (n : ℕ) → Digits s → scan 0 s ≡ some n → read_trimmed s ≡ pos n
unfolding read_trimmed scan
read_trimmed-Digits [] n h e = ground arith
read_trimmed-Digits (c ∷ s) n h e = ground arith

-- Reading the decimal text of a number gives the number back.
pub num_of_text-decimal : (n : ℕ) → num_of_text (decimal n) ≡ pos n
unfolding num_of_text decimal scan
num_of_text-decimal n =
    let digits = emit-Digits (suc n) n [] tt in
    rw (trim-Digits _ digits)
      (read_trimmed-Digits _ n digits (scan-emit (suc n) n [] (omega arith)))

unsigned-Digits :
    (s : String) (n : ℕ) → Digits s → scan 0 s ≡ some (suc n) → unsigned s ≡ pos (suc n)
unfolding unsigned scan
unsigned-Digits [] n h e = ground arith
unsigned-Digits (c ∷ s) n h e = ground arith

num_of_text-minus :
    (s : String) (n : ℕ) → Digits s → scan 0 s ≡ some (suc n) → num_of_text ("-" ∷ s) ≡ negsuc n
unfolding num_of_text
num_of_text-minus s n h e = rw (trim_end-Digits s h, unsigned-Digits s n h e)

num_of_text-negative : (n : ℕ) → num_of_text ("-" ∷ decimal (suc n)) ≡ negsuc n
unfolding decimal scan
num_of_text-negative n =
    num_of_text-minus _ n (emit-Digits (suc (suc n)) (suc n) [] tt)
      (scan-emit (suc (suc n)) (suc n) [] (omega arith))

-- Reading the text of any number, negative or `NaN`, gives the number back.
pub num_of_text-text_of_num : (n : Num) → num_of_text (text_of_num n) ≡ n
unfolding text_of_num
num_of_text-text_of_num nan = unfold num_of_text in refl
num_of_text-text_of_num (pos n) = num_of_text-decimal n
num_of_text-text_of_num (negsuc n) = num_of_text-negative n

pub decimal-Digits : (n : ℕ) → Digits (decimal n)
unfolding decimal
decimal-Digits n = emit-Digits (suc n) n [] tt

scan-Digits : (acc : ℕ) (s : String) → Digits s → (n : ℕ) × (scan acc s ≡ some n)
unfolding scan
scan-Digits acc [] h = (acc, refl)
scan-Digits acc (c ∷ s) (d, h) =
    let (n, e) = scan-Digits (acc * 10 + (code c - b'0')) s h in (n, rw d e)

-- A text of digits reads as a number, which is not negative.
pub num_of_text-Digits : (s : String) → Digits s → (n : ℕ) × (num_of_text s ≡ pos n)
unfolding num_of_text
num_of_text-Digits s h =
    let (n, e) = scan-Digits 0 s h in (n, rw (trim-Digits s h) (read_trimmed-Digits s n h e))

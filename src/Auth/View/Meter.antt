-- ===== src/Auth/View/Meter.antt =====
-- The meter of the password, against the tests that it counts.
use synora_hackathon.Prelude.{
  ℕ, ◌≤◌, ◌≡◌, refl, ◌↔◌, Bool, true, false, not, ◌||◌, List, [], ◌∷◌, String, arith, leb, ◌+◌, ◌≢◌,
  str_eq, eq_refl, sym, ap, ◌∙◌,
}
use synora_hackathon.Js.Text.{length, any, is_digit, is_upper, is_lower}
use synora_hackathon.Auth.Validate.{password_score}
use synora_hackathon.Auth.View.Register.{strength}

abbrev pub count : List Bool → ℕ
count [] = 0
count (true ∷ bs) = 1 + count bs
count (false ∷ bs) = count bs

-- Upper and lower case letters here are those of ASCII, as in the expressions of the code.
pub record IsStrong (password : String) : Type 0 where
  pub long : leb 8 (length password) ≡ true
  pub upper : any is_upper password ≡ true
  pub digit : any is_digit password ≡ true
  pub symbol : any (λ c. not (is_upper c || is_lower c || is_digit c)) password ≡ true

strength-bars : (score : ℕ) → score ≤ 4 → count (strength score).filled ≡ score
unfolding strength
strength-bars score h = ground arith

password_score_le : (password : String) → password_score password ≤ 4
unfolding password_score
password_score_le password = ground arith

word_ne : (a b : String) → str_eq a b ≡ false → a ≢ b
word_ne a b h e = cc (sym h ∙ ap (λ t. str_eq t b) e ∙ eq_refl b)

strength_strong : (score : ℕ) → score ≤ 4 → ((strength score).spoken ≡ "Strong") ↔ (score ≡ 4)
unfolding strength
strength_strong score h = ground (arith, word_ne "Weak" "Strong" refl, word_ne "Good" "Strong" refl)

score-IsStrong : (password : String) → (password_score password ≡ 4) ↔ IsStrong password
unfolding password_score
score-IsStrong password = ground arith

-- The meter fills as many bars as the password passes tests, and calls it strong exactly when it has
-- eight characters, an upper case letter, a digit and a character that is no letter and no digit.
strength-password_score :
    (password : String)
    → let m = strength (password_score password) in
      (count m.filled ≡ password_score password) × ((m.spoken ≡ "Strong") ↔ IsStrong password)
strength-password_score password = ground (
  arith,
  password_score_le password,
  strength-bars (password_score password),
  strength_strong (password_score password),
  score-IsStrong password,
)

-- ===== src/Auth/Validate.antt =====
-- frontend/src/AuthScreen.jsx, lines 422 and 430 to 437: the checks of what is typed in.
pub mod Email
pub mod Given
use Prim.Native.String.{[], ◌∷◌}
use synora_hackathon.Prelude.{
  ℕ, ◌+◌, Bool, true, false, not, ◌&&◌, ◌||◌, code, String, leb, ◌==◌, if◌then◌else◌,
}
use synora_hackathon.Js.Text.{length, is_space, any, is_digit, is_upper, is_lower}

-- `[^\s@]`.
unfoldable pub is_plain : ℕ → Bool
is_plain c = not (is_space c) && not (c == b'@')

-- At least one plain character, up to the end: `[^\s@]+$`.
pub plain_rest : String → Bool
plain_rest [] = true
plain_rest (c ∷ s) = is_plain (code c) && plain_rest s

pub some_plain : String → Bool
unfolding plain_rest
some_plain [] = false
some_plain (c ∷ s) = is_plain (code c) && plain_rest s

-- Behind one plain character: `[^\s@]*\.[^\s@]+$`.
pub after_host : String → Bool
unfolding some_plain
after_host [] = false
after_host (c ∷ s) = (code c == b'.' && some_plain s) || (is_plain (code c) && after_host s)

-- `[^\s@]+\.[^\s@]+$`.
pub is_domain : String → Bool
unfolding after_host
is_domain [] = false
is_domain (c ∷ s) = is_plain (code c) && after_host s

-- Behind one plain character: `[^\s@]*@[^\s@]+\.[^\s@]+$`.
pub after_local : String → Bool
unfolding is_domain
after_local [] = false
after_local (c ∷ s) = if code c == b'@' then is_domain s else is_plain (code c) && after_local s

-- `validateEmail`: /^[^\s@]+@[^\s@]+\.[^\s@]+$/.
unfoldable pub validate_email : String → Bool
unfolding after_local is_plain
validate_email [] = false
validate_email (c ∷ s) = is_plain (code c) && after_local s

-- `validatePassword`.
unfoldable pub validate_password : String → Bool
validate_password password = leb 8 (length password)

abbrev bit : Bool → ℕ
bit true = 1
bit false = 0

-- `passwordScore`: how many of the four tests pass.
unfoldable pub password_score : String → ℕ
unfolding any
password_score password =
    bit (leb 8 (length password))
    + bit (any is_upper password)
    + bit (any is_digit password)
    + bit (any (λ c. not (is_upper c || is_lower c || is_digit c)) password)

-- ===== src/Auth/Validate/Given.antt =====
-- A text that is checked is not empty.
use synora_hackathon.Prelude.{◌≡◌, refl, true, false, String}
use synora_hackathon.Js.Text.{is_empty}
use synora_hackathon.Auth.Validate.{validate_email, validate_password}

pub has_email : (t : String) → validate_email t ≡ true → is_empty t ≡ false
unfolding validate_email
has_email String.[] h = cc
has_email (String.◌∷◌ c t) h = refl

pub has_password : (t : String) → validate_password t ≡ true → is_empty t ≡ false
unfolding validate_password
has_password String.[] h = cc
has_password (String.◌∷◌ c t) h = refl

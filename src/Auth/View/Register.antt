-- ===== src/Auth/View/Register.antt =====
-- frontend/src/AuthScreen.jsx, lines 692 to 880: the registration form.
use synora_hackathon.Prelude.{
  ℕ, Bool, false, Option, List, [], ◌∷◌, map, String, ltb, if◌then◌else◌,
}
use synora_hackathon.Auth.Screen.{Screen, is_busy}
use synora_hackathon.Auth.Validate.{password_score}
use synora_hackathon.Auth.View.Controls.{Control, Eye, is_invalid, password_type, eye, banner}

-- The meter of the password: its label for readers and on the page, and its four bars.
pub record Strength : Type 0 where
  pub spoken : String
  pub written : String
  pub filled : List Bool

unfoldable pub strength : ℕ → Strength
strength score = record {
  spoken = if ltb score 2 then "Weak" else if ltb score 4 then "Good" else "Strong";
  written = if ltb score 2 then "WEAK" else if ltb score 4 then "GOOD" else "STRONG";
  filled = map (λ index. ltb index score) (0 ∷ 1 ∷ 2 ∷ 3 ∷ []);
}

pub record RegisterForm : Type 0 where
  pub fields : List Control
  pub password_eye : Eye
  pub confirm_eye : Eye
  pub strength_meter : Strength
  pub feedback : Option String
  pub submit_disabled : Bool
  pub submit_text : String
  pub to_login_disabled : Bool

abbrev plain : String → String → Bool → Control
plain name type busy = record { name = name; type = type; disabled = busy; invalid = false }

-- The fields, in their order on the page.
abbrev pub register_fields : Screen → List Control
register_fields s =
    let busy = is_busy s in
    plain "firstName" "" busy
    ∷ plain "lastName" "" busy
    ∷ plain "birthDate" "date" busy
    ∷ plain "username" "" busy
    ∷ record { name = "email"; type = "email"; disabled = busy; invalid = is_invalid "email" s }
    ∷ record {
      name = "password";
      type = password_type s.show_password;
      disabled = busy;
      invalid = is_invalid "password" s;
    }
    ∷ record {
      name = "confirmPassword";
      type = password_type s.show_confirm;
      disabled = busy;
      invalid = is_invalid "confirmation" s;
    }
    ∷ plain "organization" "" busy
    ∷ plain "role" "select" busy
    ∷ plain "region" "select" busy
    ∷ plain "terms" "checkbox" busy
    ∷ []

unfoldable pub register_form : Screen → RegisterForm
unfolding strength password_score is_invalid
register_form s = record {
  fields = register_fields s;
  password_eye = eye "password" (is_busy s) s.show_password;
  confirm_eye = eye "confirmation" (is_busy s) s.show_confirm;
  strength_meter = strength (password_score s.password);
  feedback = banner s;
  submit_disabled = is_busy s;
  submit_text = if is_busy s then "PROCESSING..." else "REGISTER NODE";
  to_login_disabled = is_busy s;
}

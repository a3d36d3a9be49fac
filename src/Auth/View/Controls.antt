-- ===== src/Auth/View/Controls.antt =====
-- frontend/src/AuthScreen.jsx: the parts that its two forms share.
use Prim.Native.String.{◌++◌}
use synora_hackathon.Prelude.{Bool, not, ◌&&◌, Option, none, some, String, if◌then◌else◌}
use synora_hackathon.Js.Text.{is_empty, includes}
use synora_hackathon.Auth.Screen.{Screen}

-- An `input` or `select`: its name, its type, whether it is disabled and marked as invalid.
pub record Control : Type 0 where
  pub name : String
  pub type : String
  pub disabled : Bool
  pub invalid : Bool

-- The button of a password field that shows or hides its text.
pub record Eye : Type 0 where
  pub label : String
  pub disabled : Bool
  pub visible : Bool

-- `notice && notice.includes(word)`.
unfoldable pub is_invalid : String → Screen → Bool
unfolding includes
is_invalid word s = not (is_empty s.notice) && includes s.notice word

-- `show ? 'text' : 'password'`.
abbrev pub password_type : Bool → String
password_type show = if show then "text" else "password"

abbrev pub eye : String → Bool → Bool → Eye
eye what disabled show = record {
  label = if show then "Hide " ++ what else "Show " ++ what;
  disabled = disabled;
  visible = show;
}

-- `notice && ...`.
abbrev pub banner : Screen → Option String
banner s = if is_empty s.notice then none else some s.notice

-- ===== src/Auth/View.antt =====
-- frontend/src/AuthScreen.jsx, lines 567 to 890: what the screen renders. A view holds the parts that
-- depend on the state: which controls there are, what they are disabled for, and the texts that change.
pub mod Controls
pub mod Login
pub mod Register
pub mod Submit
pub mod Meter
use synora_hackathon.Prelude.{ℕ, Bool, not, ◌&&◌, Option, none, some, String, if◌then◌else◌}
use synora_hackathon.Js.Text.{is_empty}
use synora_hackathon.Auth.Screen.{Mode, login, register, ToastType, Screen}
use synora_hackathon.Auth.Login.{Keys}
use synora_hackathon.Auth.View.Login.{LoginForm, login_form}
use synora_hackathon.Auth.View.Register.{RegisterForm, register_form}

-- The one of the two forms that is there.
pub data FormView : Type 0 where
  login_view : LoginForm → FormView
  register_view : RegisterForm → FormView

pub record Page : Type 0 where
  pub toast : Option (ToastType × String)
  pub title : String
  pub subtitle : String
  pub form : FormView

-- `toast && ...`.
abbrev shown_toast : Screen → Option (ToastType × String)
shown_toast s = if is_empty s.toast then none else some (s.toast_type, s.toast)

abbrev title_of : Mode → String
title_of login = "Welcome back."
title_of register = "Create your node."

abbrev subtitle_of : Mode → String
subtitle_of login = "Authenticate to enter the live auction terminal."
subtitle_of register = "Establish a verified institutional presence on Auctoz."

abbrev form_of : Keys → ℕ → Screen → Mode → FormView
form_of keys now s login = login_view (login_form keys now s)
form_of keys now s register = register_view (register_form s)

-- The page as it is rendered at `now`.
unfoldable pub render : Keys → ℕ → Screen → Page
unfolding login_form register_form
render keys now s = record {
  toast = shown_toast s;
  title = title_of s.mode;
  subtitle = subtitle_of s.mode;
  form = form_of keys now s s.mode;
}

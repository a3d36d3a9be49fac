-- ===== src/App/Layout.antt =====
-- frontend/src/Layout.jsx: what the frame shows for a path.
use synora_hackathon.Prelude.{Bool, not, Option, none, some, String, str_eq, if◌then◌else◌}
use synora_hackathon.Js.Text.{starts_with}

-- The links of the bar on top: to the list, with whether it is marked, and to the sign-in, if there.
pub record Navbar : Type 0 where
  pub assets_active : Bool
  pub sign_in_link : Bool

pub record Frame : Type 0 where
  pub navbar : Option Navbar
  pub auth_content : Bool
  pub footer : Bool

unfoldable pub is_auth_page : String → Bool
is_auth_page path = str_eq path "/auth"

unfoldable pub is_asset_page : String → Bool
unfolding starts_with
is_asset_page path = starts_with path "/assets"

-- `Layout`.
unfoldable pub layout : String → Frame
unfolding is_auth_page is_asset_page
layout path = record {
  navbar =
      if is_auth_page path
      then none
      else some (record { assets_active = is_asset_page path; sign_in_link = is_asset_page path });
  auth_content = is_auth_page path;
  footer = not (is_auth_page path);
}

-- ===== src/App/Routes.antt =====
-- frontend/src/main.jsx: the routes. Which of them a path matches is React Router's to say: that is a
-- `Router`, with what its documentation says of these patterns.
use Prim.Native.String.{[], ◌∷◌, ◌++◌}
use synora_hackathon.Prelude.{
  ℕ, zero, suc, ◌≡◌, Bool, true, not, ◌&&◌, ◌||◌, ◌==◌, code, Option, none, some, String,
}
use synora_hackathon.Js.Text.{is_empty}
use synora_hackathon.App.Layout.{Frame, layout}

-- The routes "/", "/assets", "/assets/:id", "/auth" and "*"; `asset` has the value of `id`.
pub data Route : Type 0 where
  root assets : Route
  asset : (id : String) → Route
  auth fallback : Route

-- The screen of a page; the terminal's `id` is the route's.
pub data Screen : Type 0 where
  asset_list : Screen
  auction_terminal : (id : String) → Screen
  auth_screen : Screen

-- What a route renders: a screen in the frame, or `Navigate`.
pub data Element : Type 0 where
  in_layout : Screen → Element
  navigate : String → Element

unfoldable pub element : Route → Element
element root = in_layout asset_list
element assets = in_layout asset_list
element (asset id) = in_layout (auction_terminal id)
element auth = in_layout auth_screen
element fallback = navigate "/assets"

-- One segment of a path, with no character that an address treats specially.
abbrev pub is_plain : ℕ → Bool
is_plain n = not (n == b'/' || n == b'?' || n == b'#' || n == b'%')

abbrev pub all_plain : String → Bool
all_plain [] = true
all_plain (c ∷ s) = is_plain (code c) && all_plain s

abbrev pub is_segment : String → Bool
is_segment s = not (is_empty s) && all_plain s

pub record Router : Type 0 where
  pub matched : String → Route
  pub matched_root : matched "/" ≡ root
  pub matched_assets : matched "/assets" ≡ assets
  pub matched_auth : matched "/auth" ≡ auth
  pub matched_asset : (id : String) → is_segment id ≡ true → matched ("/assets/" ++ id) ≡ asset id

-- A page: the path in the address bar, the frame and the screen.
pub record Page : Type 0 where
  pub path : String
  pub frame : Frame
  pub screen : Screen

abbrev pub page_at : String → Screen → Page
page_at path screen = record { path = path; frame = layout path; screen = screen }

-- The page that an element makes at its path, or what the path of its `Navigate` leads to.
abbrev pub enter : (String → Option Page) → String → Element → Option Page
enter next path (in_layout screen) = some (page_at path screen)
enter next path (navigate target) = next target

module _ (router : Router) where
  -- The page at a path; the fuel bounds the uses of `Navigate`.
  unfoldable pub visit : ℕ → String → Option Page
  unfolding element layout
  visit zero path = none
  visit (suc fuel) path = enter (visit fuel) path (element (router.matched path))

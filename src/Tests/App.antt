-- ===== src/Tests/App.antt =====
-- The routes, and the ways from screen to screen, at small inputs.
use Prim.Native.String.{◌++◌}
use text.Mathlib.TextLemmas.{nil-append, cons-append}
use synora_hackathon.Prelude.{
  ◌≡◌, refl, ◌⊎◌, true, false, Option, none, some, [], ◌∷◌, String, code, arith, ◌==◌, str_eq,
  if◌then◌else◌,
}
use synora_hackathon.Js.Value.{str, obj, end, field, Items, nil, cons, member}
use synora_hackathon.Api.Base.{faithful}
use synora_hackathon.Api.Session.{get_auth_token}
use synora_hackathon.Auth.Screen.{navigate_after}
use synora_hackathon.Auth.Login.{handle_login}
use synora_hackathon.Terminal.Screen.{initial, begin_bid}
use synora_hackathon.App.Arrival.{sign_in_arrives}
use synora_hackathon.Tests.SignIn.{
  keys, form, solved, solved-MaySend, payload, accepting, empty_store, accepted,
}
use synora_hackathon.Assets.Page.{Formatting}
use synora_hackathon.App.Layout.{layout}
use synora_hackathon.App.Routes.{
  Route, root, assets, asset, auth, fallback, Router, asset_list, auction_terminal, Page, page_at,
  is_segment, visit,
}
use synora_hackathon.App.Visit.{visit_ends}
use synora_hackathon.App.Links.{HaveIds}

-- What is behind a front.
abbrev strip : String → String → Option String
strip String.[] path = some path
strip (String.◌∷◌ c front) String.[] = none
strip (String.◌∷◌ c front) (String.◌∷◌ d path) = if code c == code d then strip front path else none

strip-append : (front s : String) → strip front (front ++ s) ≡ some s
strip-append String.[] s = rw nil-append refl
strip-append (String.◌∷◌ c front) s = rw cons-append (ground (arith, strip-append front s))

abbrev choose_behind : Option String → String → Route
choose_behind (some id) path = if is_segment id then asset id else fallback
choose_behind none path =
    if str_eq path "/"
    then root
    else if str_eq path "/assets"
    then assets
    else if str_eq path "/auth"
    then auth
    else fallback

choose_asset :
    (id : String)
    → is_segment id ≡ true
    → choose_behind (strip "/assets/" ("/assets/" ++ id)) ("/assets/" ++ id) ≡ asset id
choose_asset id h = rw (strip-append "/assets/" id, h) refl

abbrev router : Router
router = record {
  matched = λ path. choose_behind (strip "/assets/" path) path;
  matched_root = refl;
  matched_assets = refl;
  matched_auth = refl;
  matched_asset = choose_asset;
}

visit_ends_example :
    (page : Page) × (visit router 2 "/nowhere" ≡ some page)
    × (visit router 3 "/nowhere" ≡ some page)
    × ((page.path ≡ "/nowhere") ⊎ (page ≡ page_at "/assets" asset_list))
visit_ends_example = visit_ends router 1 "/nowhere"

-- The list is at the root too, where the frame has no link to the sign-in and marks no entry.
home :
    (visit router 2 "/" ≡ some (page_at "/" asset_list))
    × ((layout "/").navbar ≡ some (record { assets_active = false; sign_in_link = false }))
unfolding visit layout
home = (refl, refl)

abbrev fmt : Formatting
fmt = record {
  price_text = λ v. "0";
  exceeds_zero = λ v. false;
  percent = λ current starting. "0.00";
}

abbrev auctions : Items
auctions = cons (obj (field "id" (str "108") end)) (cons (obj (field "id" (str "109") end)) nil)

auctions-HaveIds : HaveIds auctions ("108" ∷ "109" ∷ [])
unfolding member
auctions-HaveIds = (refl, refl, (refl, refl, tt))

-- A sign-in, from the form to the terminal.
sign_in_arrives_example :
    let (s', store') = handle_login keys accepting faithful 5 6 7 form (solved, empty_store) in
    let token = (get_auth_token 1008 store').1 in
    (path : String) × (s'.calls ≡ navigate_after 1000 path ∷ solved.calls)
    × (visit router 2 path ≡ some (page_at path (auction_terminal "108")))
    × (token ≡ member "token" payload)
    × (begin_bid token initial ≡ (initial, true))
sign_in_arrives_example =
    sign_in_arrives router keys accepting faithful 5 6 7 form solved empty_store payload 1008
      initial solved-MaySend accepted

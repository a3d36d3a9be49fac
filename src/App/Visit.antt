-- ===== src/App/Visit.antt =====
-- Every path leads to a page.
use Prim.Native.String.{◌++◌}
use synora_hackathon.Prelude.{true, ℕ, suc, ◌≡◌, refl, ap, ◌∙◌, ◌⊎◌, inl, inr, some, String}
use synora_hackathon.App.Routes.{
  Router, Route, root, assets, asset, auth, fallback, asset_list, Page, auction_terminal,
  auth_screen, page_at, element, enter, visit, is_segment,
}

-- Where a path of the route leads.
abbrev page_of : String → Route → Page
page_of path root = page_at path asset_list
page_of path assets = page_at path asset_list
page_of path (asset id) = page_at path (auction_terminal id)
page_of path auth = page_at path auth_screen
page_of path fallback = page_at "/assets" asset_list

page_of_cases :
    (path : String) (r : Route)
    → ((page_of path r).path ≡ path) ⊎ (page_of path r ≡ page_at "/assets" asset_list)
page_of_cases path root = inl refl
page_of_cases path assets = inl refl
page_of_cases path (asset id) = inl refl
page_of_cases path auth = inl refl
page_of_cases path fallback = inr refl

module _ (router : Router) where
  visit-matched :
      (fuel : ℕ) (path : String) (r : Route)
      → router.matched path ≡ r
      → visit router (suc fuel) path ≡ enter (visit router fuel) path (element r)
  unfolding visit
  visit-matched fuel path r h = ap (λ q. enter (visit router fuel) path (element q)) h

  visit-assets :
      (fuel : ℕ) → visit router (suc fuel) "/assets" ≡ some (page_at "/assets" asset_list)
  unfolding element
  visit-assets fuel = visit-matched fuel "/assets" assets router.matched_assets

  visit-page_of :
      (fuel : ℕ) (path : String) (r : Route)
      → router.matched path ≡ r
      → visit router (suc (suc fuel)) path ≡ some (page_of path r)
  unfolding element
  visit-page_of fuel path root h = visit-matched (suc fuel) path root h
  visit-page_of fuel path assets h = visit-matched (suc fuel) path assets h
  visit-page_of fuel path (asset id) h = visit-matched (suc fuel) path (asset id) h
  visit-page_of fuel path auth h = visit-matched (suc fuel) path auth h
  visit-page_of fuel path fallback h = visit-matched (suc fuel) path fallback h ∙ visit-assets fuel

  -- Every path leads to a page, with at most one use of `Navigate`, so that two steps suffice and more
  -- change nothing: the path's own page, or the list of auctions at "/assets".
  pub visit_ends :
      (fuel : ℕ) (path : String)
      → (page : Page) × (visit router 2 path ≡ some page)
        × (visit router (suc (suc fuel)) path ≡ some page)
        × ((page.path ≡ path) ⊎ (page ≡ page_at "/assets" asset_list))
  visit_ends fuel path =
      let r = router.matched path in
      (
        page_of path r,
        visit-page_of 0 path r refl,
        visit-page_of fuel path r refl,
        page_of_cases path r,
      )

  -- The path of an auction shows the terminal of that auction, whatever its id.
  pub visit-asset :
      (fuel : ℕ) (id : String)
      → is_segment id ≡ true
      → visit router (suc (suc fuel)) ("/assets/" ++ id)
        ≡ some (page_at ("/assets/" ++ id) (auction_terminal id))
  visit-asset fuel id h =
      visit-page_of fuel ("/assets/" ++ id) (asset id) (router.matched_asset id h)

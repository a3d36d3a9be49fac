-- ===== src/Assets.antt =====
-- frontend/src/AssetList.jsx: the list of auctions.
pub mod Laws
pub mod Page
use Prim.Native.String.{◌++◌}
use synora_hackathon.Prelude.{ℕ, suc, ◌+◌, Bool, true, false, String, if◌then◌else◌, not}
use synora_hackathon.Js.Number.{Num, pos, add, lt}
use synora_hackathon.Js.Text.{is_empty}
use synora_hackathon.Js.Value.{
  Value, undefined, null, bool, num, str, arr, obj, Items, nil, cons, Fields, end, field, truthy,
  or_else, member, num_of, text_of,
}
use synora_hackathon.Api.Base.{Result, ok, err, Network}
use synora_hackathon.Api.Request

abbrev mock : String → String → String → ℕ → ℕ → ℕ → String → Value
mock id title description starting_price current_high_price bid_count asset_type = obj (
    field "id" (str id) (
      field "title" (str title) (
        field "description" (str description) (
          field "starting_price" (num (pos starting_price)) (
            field "current_high_price" (num (pos current_high_price)) (
              field "bid_count" (num (pos bid_count))
                (field "asset_type" (str asset_type) end)))))))

-- `mockAssets`.
abbrev pub mock_assets : Value
mock_assets = arr (
    cons
      (mock "108" "Series-A Perpetual Treasury Bond"
        "Liquidity Tranche - High-yield institutional asset" 4290000 4296500 35558 "TOKENIZED DEBT")
      (cons
        (mock "109" "Tier-1 Spectrum License" "Lot #409 - Federal auction allocation" 42855000
          42885000 12453 "SPECTRUM LICENSE")
        (cons
          (mock "110" "Corporate Bond Index Fund" "Investment Grade - Q4 Allocation" 15000000
            15250000 8934 "BOND FUND")
          (cons
            (mock "111" "Renewable Energy Credits" "Carbon Offset Portfolio - 2024 Vintage" 2500000
              2680000 5621 "RECS")
            (cons
              (mock "112" "Municipal Infrastructure Bond" "Transportation Sector - 10-year Term"
                8000000 8150000 7832 "MUNICIPAL BOND")
              (cons
                (mock "113" "Technology Sector ETF" "Growth Allocation - Semiconductor Focus"
                  12000000 12350000 15678 "ETF")
                nil))))))

-- `v.length > 0`, of a value that is not nullish.
unfoldable pub has_items : Value → Bool
unfolding member num_of
has_items (arr nil) = false
has_items (arr (cons x xs)) = true
has_items (str s) = not (is_empty s)
has_items (obj fs) = lt (pos 0) (num_of (member "length" (obj fs)))
has_items _ = false

pub record Screen : Type 0 where
  pub assets : Value
  pub loading : Bool
  pub error : String

abbrev pub initial : Screen
initial = record { assets = arr nil; loading = true; error = "" }

abbrev chosen : Result Value → Value
chosen (err e) = mock_assets
chosen (ok fetched) = if has_items fetched then fetched else mock_assets

-- `loadAssets`, from the answer of `getAllAssets` on.
unfoldable pub finish_load : Result Value → Screen → Screen
unfolding has_items
finish_load r s = record s { assets = chosen r; loading = false }

-- `loadAssets`.
unfoldable pub load_assets : Network → Value → Screen → Screen
unfolding finish_load
load_assets net token s =
    finish_load (Request.get_all_assets net token) (record s { loading = true })

-- What the page shows.
pub data View : Type 0 where
  spinner : View
  failure : String → View
  grid : Value → View

unfoldable pub view : Screen → View
view s =
    if s.loading then spinner else if not (is_empty s.error) then failure s.error else grid s.assets

-- `a + b`: texts are joined, and so is what is no number, truth value, `null` or `undefined`.
abbrev pub is_text : Value → Bool
is_text (str s) = true
is_text (arr xs) = true
is_text (obj fs) = true
is_text _ = false

unfoldable pub plus : Value → Value → Value
unfolding text_of num_of
plus a b =
    if is_text a
    then str (text_of a ++ text_of b)
    else if is_text b
    then str (text_of a ++ text_of b)
    else num (add (num_of a) (num_of b))

-- The `reduce` of "Total Volume".
unfoldable pub total_volume : Value → Items → Value
unfolding plus
total_volume sum nil = sum
total_volume sum (cons a rest) =
    total_volume (plus sum (or_else (member "current_high_price" a) (num (pos 0)))) rest

-- The texts and the price of a card.
unfoldable pub card_price : Value → Value
card_price asset =
    or_else (member "current_high_price" asset)
      (or_else (member "starting_price" asset) (num (pos 0)))

unfoldable pub card_title : Value → Value
unfolding text_of
card_title asset =
    or_else (member "title" asset)
      (or_else (member "name" asset) (str ("Asset #" ++ text_of (member "id" asset))))

unfoldable pub card_description : Value → Value
card_description asset =
    or_else (member "description" asset)
      (or_else (member "asset_type" asset) (str "Institutional auction asset"))

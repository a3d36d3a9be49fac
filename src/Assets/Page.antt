-- ===== src/Assets/Page.antt =====
-- frontend/src/AssetList.jsx, lines 25 to 62 and 154 to 208: the cards and the page around them. Of
-- JavaScript's formatting, `Number(v).toLocaleString('en-US')` is the argument `price_text`, the
-- comparison `v > 0` is `exceeds_zero`, and the percentage by `toFixed(2)` is `percent`.
use Prim.Native.String.{◌++◌}
use synora_hackathon.Prelude.{
  ℕ, Bool, Option, none, some, List, [], ◌∷◌, String, if◌then◌else◌, length, ◌==◌,
}
use synora_hackathon.Js.Number.{pos}
use synora_hackathon.Js.Value.{Value, num, str, Items, nil, cons, or_else, member, text_of}
use synora_hackathon.Assets.{total_volume, card_price, card_title, card_description}

-- The formatting of the engine.
pub record Formatting : Type 0 where
  pub price_text : Value → String
  pub exceeds_zero : Value → Bool
  pub percent : (current : Value) (starting : Value) → String

-- `AssetCard`.
pub record Card : Type 0 where
  pub href : String
  pub title : Value
  pub description : Value
  pub starting : String
  pub current : String
  pub gain : Option String
  pub lot : String
  pub bids : Value

-- The page: its two figures, the cards, and the note where there is none.
pub record AssetPage : Type 0 where
  pub active : ℕ
  pub volume : String
  pub cards : List Card
  pub is_empty_state : Bool

module _ (fmt : Formatting) where
  -- `startingPrice`, and `gain`: a text of a percentage, or 0.
  abbrev starting_price : Value → Value
  starting_price asset = or_else (member "starting_price" asset) (num (pos 0))

  unfoldable pub gain : Value → Value
  unfolding card_price member
  gain asset =
      if fmt.exceeds_zero (starting_price asset)
      then str (fmt.percent (card_price asset) (starting_price asset))
      else num (pos 0)

  unfoldable pub card : Value → Card
  unfolding gain card_title card_description text_of
  card asset = record {
    href = "/assets/" ++ text_of (member "id" asset);
    title = card_title asset;
    description = card_description asset;
    starting = "$" ++ fmt.price_text (starting_price asset);
    current = "$" ++ fmt.price_text (card_price asset);
    gain =
        if fmt.exceeds_zero (gain asset) then some ("+" ++ (text_of (gain asset) ++ "%")) else none;
    lot = "LOT #" ++ text_of (member "id" asset);
    bids = or_else (member "bid_count" asset) (num (pos 0));
  }

  unfoldable pub cards : Items → List Card
  unfolding card
  cards nil = []
  cards (cons asset rest) = card asset ∷ cards rest

  -- The page of a list.
  unfoldable pub asset_page : Items → AssetPage
  unfolding cards total_volume
  asset_page assets =
      let shown = cards assets in
      record {
        active = length shown;
        volume = "$" ++ fmt.price_text (total_volume (num (pos 0)) assets);
        cards = shown;
        is_empty_state = length shown == 0;
      }

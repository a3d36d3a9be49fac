-- ===== src/App/Links.antt =====
-- The links of the list of auctions.
use Prim.Native.String.{◌++◌}
use synora_hackathon.Prelude.{◌≡◌, refl, true, some, List, [], ◌∷◌, String, ap, ◌∙◌}
use synora_hackathon.Js.Value.{Value, str, Items, nil, cons, member, text_of}
use synora_hackathon.Assets.Page.{Formatting, Card, card, cards}
use synora_hackathon.App.Routes.{Router, auction_terminal, is_segment, page_at, visit}
use synora_hackathon.App.Visit.{visit-asset}

-- The ids of the auctions, where each is a text that can stand in a path.
abbrev pub HaveIds : Items → List String → Type 0
HaveIds nil [] = Unit
HaveIds nil (id ∷ ids) = ⊥
HaveIds (cons a rest) [] = ⊥
HaveIds (cons a rest) (id ∷ ids) =
    (member "id" a ≡ str id) × (is_segment id ≡ true) × HaveIds rest ids

-- Each card's link shows the terminal of the auction with its id.
abbrev pub LeadTo : Router → List Card → List String → Type 0
LeadTo router [] [] = Unit
LeadTo router [] (id ∷ ids) = ⊥
LeadTo router (c ∷ cs) [] = ⊥
LeadTo router (c ∷ cs) (id ∷ ids) =
    (visit router 2 c.href ≡ some (page_at ("/assets/" ++ id) (auction_terminal id)))
    × LeadTo router cs ids

card-href :
    (fmt : Formatting) (asset : Value) (id : String)
    → member "id" asset ≡ str id
    → (card fmt asset).href ≡ "/assets/" ++ id
unfolding card text_of
card-href fmt asset id h = rw h refl

-- The page of a list has one card for each auction, in order, and the link of each card shows the
-- terminal of its auction, where the ids are texts that can stand in a path.
cards-LeadTo :
    (router : Router) (fmt : Formatting) (assets : Items) (ids : List String)
    → HaveIds assets ids
    → LeadTo router (cards fmt assets) ids
unfolding cards
cards-LeadTo router fmt nil [] h = tt
cards-LeadTo router fmt nil (id ∷ ids) h = absurd h
cards-LeadTo router fmt (cons a rest) [] h = absurd h
cards-LeadTo router fmt (cons a rest) (id ∷ ids) (e, segment, h) = (
  ap (visit router 2) (card-href fmt a id e) ∙ visit-asset router 0 id segment,
  cards-LeadTo router fmt rest ids h,
)

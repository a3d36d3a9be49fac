-- ===== src/Terminal/Tape.antt =====
-- frontend/src/AuctionTerminal.jsx, lines 6 to 13 and 86: the order tape and its filter.
use synora_hackathon.Prelude.{
  ◌+◌, ◌≡◌, refl, Bool, true, not, List, [], ◌∷◌, String, arith, str_eq, length, if◌then◌else◌,
}

pub record Row : Type 0 where
  pub sequence : String
  pub status : String
  pub amount : String
  pub client : String
  pub region : String
  pub latency : String
  pub note : String

-- `row[1] === 'ACCEPTED'`.
unfoldable pub is_accepted : Row → Bool
is_accepted row = str_eq row.status "ACCEPTED"

-- `row[3] === 'Trader_Direct_01'`.
unfoldable pub is_manual : Row → Bool
is_manual row = str_eq row.client "Trader_Direct_01"

pub data Filter : Type 0 where
  all accepted rejected manual : Filter

unfoldable pub is_visible : Filter → Row → Bool
is_visible all row = true
is_visible accepted row = is_accepted row
is_visible rejected row = not (is_accepted row)
is_visible manual row = is_manual row

unfoldable pub visible_rows : Filter → List Row → List Row
visible_rows f [] = []
visible_rows f (row ∷ rows) =
    let rest = visible_rows f rows in if is_visible f row then row ∷ rest else rest

-- Every row is shown under "All", and "Accepted" and "Rejected" together show as many rows as
-- there are.
pub visible_rows_split :
    (rows : List Row)
    → (visible_rows all rows ≡ rows)
      × (length (visible_rows accepted rows) + length (visible_rows rejected rows) ≡ length rows)
unfolding visible_rows is_visible
visible_rows_split [] = (refl, omega arith)
visible_rows_split (row ∷ rows) = ground (arith, visible_rows_split rows)

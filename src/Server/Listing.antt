-- ===== src/Server/Listing.antt =====
-- backend/internal/handlers/handlers.go, lines 495 to 589: the list of auctions, a page at a time. The
-- table is given in the order of the query, by `start_time desc, id desc`; an id is the number of its
-- UUID, a start time counts from Go's zero time, and a limit that is not positive is 0 or `none`.
pub mod Order
pub mod Pages
use synora_hackathon.Prelude.{
  ℕ, zero, suc, Bool, true, false, not, ◌||◌, ◌&&◌, Option, none, some, List, [], ◌∷◌, ◌++◌, String,
  str_eq, ltb, ◌==◌, length, take, filter, if◌then◌else◌,
}
use synora_hackathon.Js.Text.{is_empty}
use synora_hackathon.Js.Value.{Value, bool, str, obj, end, field, Items, arr}

unfoldable pub list_body : Items → String → Bool → Value
list_body items next_cursor more = obj (
    field "items" (arr items)
      (field "next_cursor" (str next_cursor) (field "has_more" (bool more) end)))

-- The columns of an auction that the list depends on.
pub record Auction : Type 0 where
  pub id : ℕ
  pub start : ℕ
  pub status : String

-- A cursor: the start time and the id of the last auction of a page.
abbrev pub Cursor : Type 0
Cursor = ℕ × ℕ

-- `start_time < $2 or (start_time = $2 and id < $3)`.
abbrev pub is_after : Cursor → Auction → Bool
is_after (start, id) a = ltb a.start start || (a.start == start && ltb a.id id)

abbrev pub is_of_status : String → Auction → Bool
is_of_status status a = str_eq a.status status

-- The query: what it selects, behind the cursor if there is one.
unfoldable pub select_page : String → Option Cursor → ℕ → List Auction → List Auction
unfolding filter take
select_page status none n table = take n (filter (is_of_status status) table)
select_page status (some c) n table =
    take n (filter (is_after c) (filter (is_of_status status) table))

pub data Listed : Type 0 where
  bad_limit bad_cursor : Listed
  page : (items : List Auction) (next_cursor : String) (has_more : Bool) → Listed

-- `status == ""` and `limit == 0`.
abbrev pub status_or_active : String → String
status_or_active status = if is_empty status then "ACTIVE" else status

abbrev pub limit_or_twenty : ℕ → ℕ
limit_or_twenty zero = 20
limit_or_twenty (suc n) = suc n

-- The text of a cursor and back are the work of libraries for time, JSON and base64.
module _ (encode : Cursor → String) where
  -- `encodeCursor`, of an id that is there.
  abbrev pub encode_cursor : Auction → String
  encode_cursor a = if a.start == 0 then "" else encode (a.start, a.id)

  abbrev last_cursor : List Auction → String
  last_cursor [] = ""
  last_cursor (a ∷ []) = encode_cursor a
  last_cursor (a ∷ b ∷ rest) = last_cursor (b ∷ rest)

  -- The page out of the rows of the query, which asks for one more than the limit.
  unfoldable pub page_of : ℕ → List Auction → Listed
  unfolding take
  page_of limit rows =
      if ltb limit (length rows)
      then page (take limit rows) (last_cursor (take limit rows)) true
      else page rows "" false

module _ (encode : Cursor → String) (decode : String → Option Cursor) where
  -- `listAuctions`; `none` is a negative limit.
  unfoldable pub list_auctions :
      (status : String) → Option ℕ → (cursor : String) → List Auction → Listed
  unfolding page_of select_page
  list_auctions status none cursor table = bad_limit
  list_auctions status (some n) cursor table =
      let limit = limit_or_twenty n in
      let status' = status_or_active status in
      if ltb 100 limit
      then bad_limit
      else if is_empty cursor
      then page_of encode limit (select_page status' none (suc limit) table)
      else elim (decode cursor) [
        | none ↦ bad_cursor
        | some c ↦ page_of encode limit (select_page status' (some c) (suc limit) table)
      ]

  -- A client that asks for page after page, as long as there is one, at most `fuel` of them.
  unfoldable pub collect :
      (fuel : ℕ) (status : String) (limit : ℕ) → (cursor : String) → List Auction → List Auction
  unfolding list_auctions
  collect zero status limit cursor table = []
  collect (suc fuel) status limit cursor table =
      elim (list_auctions status (some limit) cursor table) [
        | bad_limit ↦ []
        | bad_cursor ↦ []
        | page items next more ↦
            let rest = collect fuel status limit next table in if more then items ++ rest else items
      ]

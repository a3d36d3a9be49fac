-- ===== src/Server/Placing.antt =====
-- backend/internal/handlers/handlers.go, lines 433 to 494 and 617 to 678: the whole handler `bid`, on the
-- table of auctions and the keys of each, and `createAuction`. The user of a request, by the JWT
-- library, is an argument, and so are the check of an id and how a time is written and read. A body has
-- each key at most once. The description and the two dates of a row are left out.
pub mod Served
pub mod Created
pub mod Fresh
use synora_hackathon.Prelude.{
  ℕ, Bool, true, false, not, ◌||◌, ◌&&◌, Option, none, some, List, [], ◌∷◌, String, str_eq, leb,
  ◌==◌, if◌then◌else◌,
}
use synora_hackathon.Js.Text.{is_empty}
use synora_hackathon.Js.Value.{Value, null, bool, str, obj, end, field}
use synora_hackathon.Api.Base.{Method, get, post, Response}
use synora_hackathon.Server.Redis.{Keys}
use synora_hackathon.Server.Bids.{BidInput, decode_bid, is_amount}
use synora_hackathon.Server.Limiter.{write_err}
use synora_hackathon.Server.SignIn.{Texts, go_trim, decode_struct, empty_response, validation_error}
use synora_hackathon.Server.Auction.{
  Row, Found, missing, failed, row, Link, Reply, not_biddable, not_found, unavailable, too_low,
  created, bid,
}

-- A row of `auctions`; no column but these two may be null.
pub record Stored : Type 0 where
  pub item_title : String
  pub starting_price : String
  pub current_high_price : Option String
  pub winner_id : Option String
  pub status : String
  pub start_time : ℕ
  pub end_time : ℕ

abbrev pub Table : Type 0
Table = String → Option Stored

-- The query of `bid` with its `Scan`, which fails where `current_high_price` is null, since it reads it
-- into a text; `queries` says that the database answers.
abbrev pub scan : (queries : Bool) → Option Stored → Found
scan false x = failed
scan true none = missing
scan true (some x) = elim x.current_high_price [
  | none ↦ failed
  | some high ↦ row (record {
    status = x.status;
    start_time = x.start_time;
    end_time = x.end_time;
    starting_price = x.starting_price;
    current_high = high;
    winner = x.winner_id;
  })
]

-- `decode`, and the checks of the id and of the amount.
unfoldable pub bid_input : (is_uuid : String → Bool) → Option Value → Option BidInput
unfolding decode_bid is_amount
bid_input is_uuid none = none
bid_input is_uuid (some body) = elim (decode_bid body) [
  | none ↦ none
  | some b ↦ if is_uuid b.auction_id && is_amount b.amount then some b else none
]

abbrev created_body : (format : ℕ → String) (now : ℕ) (user : String) → BidInput → Row → Value
created_body format now user b r = obj (
    field "bid"
      (obj (
        field "id" null (
          field "auction_id" (str b.auction_id) (
            field "user_id" (str user) (
              field "amount" (str b.amount)
                (field "placed_at" (str (format now)) (field "is_winning_bid" (bool true) end)))))))
      (field "auction"
        (obj (
          field "id" (str b.auction_id) (
            field "current_high_price" (str b.amount)
              (field "status" (str r.status) (field "end_time" (str (format r.end_time)) end)))))
        end))

abbrev pub refuse_bid : Response
refuse_bid = write_err 400 "AUCTION_NOT_BIDDABLE" "Auction is not accepting bids" end

-- The answer to a bid on a row that was read.
abbrev pub bid_response :
    (format : ℕ → String) (now : ℕ) (user : String) → BidInput → Row → Reply → Response
bid_response format now user b r not_biddable = refuse_bid
bid_response format now user b r not_found =
    write_err 404 "AUCTION_NOT_FOUND" "Auction was not found" end
bid_response format now user b r unavailable =
    write_err 503 "TEMPORARILY_UNAVAILABLE" "Bid service unavailable" end
bid_response format now user b r (too_low current) =
    write_err 409 "BID_TOO_LOW" "Bid must exceed the current high price" (
      field "auction_id" (str b.auction_id)
        (field "submitted_amount" (str b.amount) (field "current_high_price" (str current) end)))
bid_response format now user b r created = record {
  status = 201;
  body = some (created_body format now user b r);
  retry_header = none;
}

abbrev pub on_found :
    (format : ℕ → String)
    → Link
    → (now : ℕ) (user : String) → BidInput
    → Found
    → Keys
    → Keys × Response
on_found format link now user b missing k =
    (k, write_err 404 "AUCTION_NOT_FOUND" "Auction was not found" end)
on_found format link now user b failed k = (k, refuse_bid)
on_found format link now user b (row r) k =
    let (k', reply) = bid link now user b.amount (row r) k in
    (k', bid_response format now user b r reply)

-- The keys of all auctions, where those of one change.
abbrev pub set_keys : String → Keys → (String → Keys) → String → Keys
set_keys id k store = λ q. if str_eq q id then k else store q

abbrev pub on_input :
    (format : ℕ → String) (queries : Bool)
    → Link
    → (now : ℕ) (user : String) → Option BidInput
    → Table
    → (store : String → Keys) → (String → Keys) × Response
on_input format queries link now user none table store =
    (store, write_err 400 "INVALID_AMOUNT" "Invalid bid" end)
on_input format queries link now user (some b) table store =
    let (k, x) =
      on_found format link now user b (scan queries (table b.auction_id)) (store b.auction_id) in
    (set_keys b.auction_id k store, x)

-- `bid`, with the calls of the database and of Redis that go through, the time, and the user that the
-- request's token names.
unfoldable pub handle_bid :
    (is_uuid : String → Bool) (format : ℕ → String) (queries : Bool)
    → Link
    → (now : ℕ) → Method
    → (user : Option String) → Option Value
    → Table
    → (store : String → Keys) → (String → Keys) × Response
unfolding bid_input bid
handle_bid is_uuid format queries link now get user body table store = (store, empty_response 405)
handle_bid is_uuid format queries link now post none body table store =
    (store, write_err 401 "AUTH_REQUIRED" "Authentication required" end)
handle_bid is_uuid format queries link now post (some user) body table store =
    on_input format queries link now user (bid_input is_uuid body) table store

-- What `createAuction` answers: a refusal, or 201 with the row of this id.
pub data Creation : Type 0 where
  refused : Response → Creation
  made : (id : String) → Creation

abbrev auction_fields : List String
auction_fields =
    "item_title" ∷ "description" ∷ "starting_price" ∷ "start_time" ∷ "end_time" ∷ "status" ∷ []

abbrev or_zero : Option ℕ → ℕ
or_zero none = 0
or_zero (some t) = t

-- The checks of the fields; 0 is Go's zero time.
abbrev pub with_times : Texts → ℕ → ℕ → Option Stored
with_times f start end_time =
    if is_empty (go_trim (f "item_title"))
      || is_empty (f "starting_price")
      || start == 0
      || leb end_time start
    then none
    else some (record {
      item_title = go_trim (f "item_title");
      starting_price = f "starting_price";
      current_high_price = none;
      winner_id = none;
      status = if is_empty (f "status") then "DRAFT" else f "status";
      start_time = start;
      end_time = end_time;
    })

abbrev pub with_texts : (parse : String → Option ℕ) → Option Texts → Option Stored
with_texts parse none = none
with_texts parse (some f) =
    with_times f (or_zero (parse (f "start_time"))) (or_zero (parse (f "end_time")))

-- The row to insert, whatever its status; `parse` reads a time.
unfoldable pub auction_input : (parse : String → Option ℕ) → Option Value → Option Stored
unfolding decode_struct go_trim
auction_input parse body = with_texts parse (decode_struct auction_fields body)

abbrev is_new_status : String → Bool
is_new_status status = str_eq status "DRAFT" || str_eq status "ACTIVE"

-- The insertion; `inserts` is the id that the database gives to the row, if it takes it.
abbrev pub insert_auction : (inserts : Option String) → Stored → Table → Table × Creation
insert_auction none x table = (table, refused (validation_error "Unable to create auction"))
insert_auction (some id) x table = ((λ q. if str_eq q id then some x else table q), made id)

abbrev pub with_input : (inserts : Option String) → Option Stored → Table → Table × Creation
with_input inserts none table = (table, refused (validation_error "Invalid auction fields"))
with_input inserts (some x) table =
    if is_new_status x.status
    then insert_auction inserts x table
    else (table, refused (validation_error "Invalid status"))

-- `createAuction`.
unfoldable pub create_auction :
    (parse : String → Option ℕ) (user : Option String) (inserts : Option String)
    → Option Value
    → Table
    → Table × Creation
unfolding auction_input
create_auction parse none inserts body table =
    (table, refused (write_err 401 "AUTH_REQUIRED" "Authentication required" end))
create_auction parse (some user) inserts body table =
    with_input inserts (auction_input parse body) table

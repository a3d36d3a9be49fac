-- ===== src/Tests/Placing.antt =====
-- Requests to bid and to make an auction, at small inputs.
use synora_hackathon.Prelude.{
  ℕ, ◌≡◌, ◌↔◌, refl, Bool, true, Option, none, some, String, str_eq, if◌then◌else◌,
}
use synora_hackathon.Js.Decimal.{decimal}
use synora_hackathon.Js.Value.{Value, str, obj, end, field}
use synora_hackathon.Api.Base.{Network, response, post}
use synora_hackathon.Terminal.Screen.{Screen, initial, submit_bid}
use synora_hackathon.Server.Redis.{Keys, no_keys}
use synora_hackathon.Server.Auction.Accepts.{all_through}
use synora_hackathon.Server.Placing.{
  Stored, Table, bid_input, made, create_auction, handle_bid, refuse_bid,
}
use synora_hackathon.Server.Placing.Created.{Wins, handle_bid-created_iff}
use synora_hackathon.Server.Placing.Served.{submit_bid-served}
use synora_hackathon.Server.Placing.Fresh.{create_auction-refuses_bids}

abbrev any_id : String → Bool
any_id s = true

abbrev lot : Stored
lot = record {
  item_title = "Vase";
  starting_price = "100.00";
  current_high_price = some "100.00";
  winner_id = none;
  status = "ACTIVE";
  start_time = 1000;
  end_time = 9000;
}

abbrev lots : Table
lots id = some lot

abbrev nothing_kept : String → Keys
nothing_kept id = no_keys

abbrev offer : String → Option Value
offer amount = some (obj (field "AuctionID" (str "x1") (field "Amount" (str amount) end)))

higher_wins :
    (handle_bid any_id decimal true all_through 2000 post
      (some "u1")
      (offer "120.00")
      lots
      nothing_kept).1.status
    ≡ 201
unfolding handle_bid
higher_wins = refl

equal_loses :
    (handle_bid any_id decimal true all_through 2000 post
      (some "u1")
      (offer "100.00")
      lots
      nothing_kept).1.status
    ≡ 409
unfolding handle_bid
equal_loses = refl

handle_bid-created_iff_example :
    ((handle_bid any_id decimal true all_through 2000 post
        (some "u1")
        (offer "120.00")
        lots
        nothing_kept).1.status
      ≡ 201)
    ↔ Wins any_id true 2000 (some "u1") (offer "120.00") lots nothing_kept
handle_bid-created_iff_example =
    handle_bid-created_iff any_id decimal true 2000 (offer "120.00") lots nothing_kept
      (λ id r e. refl) (some "u1")

abbrev bidding : Screen
bidding = record initial { amount = "4296500" }

abbrev through : Network
through r = response (
    (handle_bid any_id decimal true all_through 2000 r.method (some "u1") (some r.body) lots
      nothing_kept).1)

submit_bid-served_example :
    (nothing_kept ≡ nothing_kept)
    × (submit_bid through "x1" (str "t") bidding
        ≡ record bidding { message = "REJECTED / Invalid bid" })
unfolding handle_bid
submit_bid-served_example =
    submit_bid-served any_id decimal true all_through 2000 (some "u1") lots nothing_kept through
      "x1" (str "t") bidding refl refl

abbrev new_vase : Option Value
new_vase = some (
    obj (
      field "item_title" (str " Vase") (
        field "starting_price" (str "100.00") (
          field "start_time" (str "a")
            (field "end_time" (str "b") (field "status" (str "ACTIVE") end))))))

abbrev times : String → Option ℕ
times s = if str_eq s "a" then some 1000 else some 9000

abbrev no_lots : Table
no_lots id = none

vase_made : (create_auction times (some "u1") (some "x1") new_vase no_lots).1 ≡ made "x1"
unfolding create_auction
vase_made = refl

create_auction-refuses_bids_example :
    let (table', creation) = create_auction times (some "u1") (some "x1") new_vase no_lots in
    let (store', x) =
      handle_bid any_id decimal true all_through 2000 post
        (some "u2")
        (offer "120.00")
        table'
        nothing_kept in
    (x ≡ refuse_bid) × ((q : String) → store' q ≡ no_keys)
unfolding bid_input
create_auction-refuses_bids_example =
    create_auction-refuses_bids times (some "u1") (some "x1") new_vase no_lots "x1" any_id decimal
      true all_through 2000 "u2" (offer "120.00") (record { auction_id = "x1"; amount = "120.00" })
      nothing_kept vase_made refl refl

-- ===== src/Tests/Lists.antt =====
-- The list of auctions, and the server's checks, at small inputs.
use synora_hackathon.Prelude.{◌≡◌, refl, inl, Bool, true, false, none, some, String, arith}
use synora_hackathon.Js.Number.{pos}
use synora_hackathon.Js.Value.{Value, num, str, obj, end, field, Items, nil, cons, member}
use synora_hackathon.Api.Base.{Network, unreachable, response, plain_error}
use synora_hackathon.Assets.{mock_assets, initial, load_assets, grid, view, total_volume}
use synora_hackathon.Assets.Laws.{PriceSum, HasTextPrice}
use synora_hackathon.Server.Hub.{authenticate}
use synora_hackathon.Server.Bids.{is_amount}
use synora_hackathon.Server.Placing.{bid_input}
use synora_hackathon.Server.Contract.{load_assets-list_body}
use synora_hackathon.Server.Listing.{list_body}

abbrev offline : Network
offline r = unreachable (plain_error "Failed to fetch")

abbrev priced : Value → Value
priced v = obj (field "current_high_price" v end)

abbrev two : Items
two = cons (priced (num (pos 7))) (cons (obj end) nil)

two-PriceSum : PriceSum 0 two 7
unfolding member
two-PriceSum = (7, refl, (0, refl, omega arith))

abbrev as_text : Items
as_text = cons (priced (str "7.00")) nil

as_text-HasTextPrice : HasTextPrice as_text
unfolding member
as_text-HasTextPrice = inl ("7.00", refl)

joined : total_volume (num (pos 0)) as_text ≡ str "07.00"
unfolding total_volume member
joined = refl

abbrev anything : String → Bool
anything s = true

amounts :
    (is_amount "4296500.00" ≡ true)
    × (is_amount "4296500" ≡ false)
    × (is_amount "12345678901.00" ≡ false)
unfolding is_amount
amounts = (refl, refl, refl)

-- With the server's own spelling of the fields and the frame, both go through.
renamed :
    (authenticate anything (obj (field "type" (str "AUTH") (field "token" (str "t") end))) ≡ true)
    × (bid_input anything
          (some (obj (field "auctionID" (str "108") (field "amount" (str "4296500.00") end))))
        ≡ some (record { auction_id = "108"; amount = "4296500.00" }))
unfolding authenticate bid_input
renamed = (refl, refl)

abbrev listing : Network
listing r =
    response
      (record { status = 200; body = some (list_body as_text "" false); retry_header = none })

load_assets-list_body_example : view (load_assets listing (str "") initial) ≡ grid mock_assets
load_assets-list_body_example = load_assets-list_body listing (str "") as_text "" false none refl

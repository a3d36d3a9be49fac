-- ===== src/Tests/Sale.antt =====
-- Bids on one auction and its settlement, run.
use synora_hackathon.Prelude.{
  ℕ, ◌≡◌, refl, true, false, none, some, List, [], ◌∷◌, String, arith, All, ◌⊎◌,
}
use synora_hackathon.Server.Redis.{no_keys, price_update, settlement}
use synora_hackathon.Server.Auction.{Row, Link}
use synora_hackathon.Server.Auction.Rise.{Rise}
use synora_hackathon.Server.Auction.Requests.{Request, asked, seeded, activated, schedule}
use synora_hackathon.Server.Auction.Requests.Order.{InOrder, schedule-Rise}
use synora_hackathon.Server.Auction.Requests.Late.{Unmoved, schedule-late}
use synora_hackathon.Server.Settlement.{World, Calls, attempts}
use synora_hackathon.Server.Settlement.Winner.{Settled, Fails}
use synora_hackathon.Server.Settlement.Sale.{attempts-schedule}

abbrev lot : Row
lot = record {
  status = "ACTIVE";
  start_time = 1000;
  end_time = 9000;
  starting_price = "100.00";
  current_high = "100.00";
  winner = none;
}

abbrev up : Link
up = record { sets_price = true; sets_status = true; evals = true }

abbrev offer : String → String → Request
offer user amount = record {
  bid = record { link = up; user = user; amount = amount };
  phase = asked;
}

abbrev offers : List Request
offers = offer "u1" "120.00" ∷ offer "u2" "110.00" ∷ offer "u2" "120.50" ∷ offer "u1" "900.00" ∷ []

-- The third request overtakes the second, and the fourth is late.
abbrev turns : List (ℕ × ℕ)
turns =
    (0, 1500)
    ∷ (1, 1510)
    ∷ (0, 1520)
    ∷ (0, 1530)
    ∷ (0, 1540)
    ∷ (2, 1550)
    ∷ (2, 1560)
    ∷ (1, 1570)
    ∷ (2, 1580)
    ∷ (1, 1590)
    ∷ (2, 1600)
    ∷ (1, 1610)
    ∷ (3, 8990)
    ∷ (3, 8995)
    ∷ (3, 9001)
    ∷ (3, 9002)
    ∷ []

turns-InOrder : InOrder lot 0 turns
turns-InOrder = ground arith

offers_accepted :
    (schedule lot turns offers no_keys).1
    ≡ (offer "u1" "120.00").bid ∷ (offer "u2" "120.50").bid ∷ []
unfolding schedule
offers_accepted = refl

offers_published :
    (schedule lot turns offers no_keys).0.0.updates
    ≡ price_update "120.00" ∷ price_update "120.50" ∷ []
unfolding schedule
offers_published = refl

schedule-Rise_example :
    let ((k, qs), accepted) = schedule lot turns offers no_keys in Rise lot no_keys k accepted
schedule-Rise_example =
    schedule-Rise lot turns 0 offers no_keys turns-InOrder refl (refl, (refl, (refl, (refl, tt))))

-- Two requests are under way when the auction ends, and a third comes after that.
abbrev overtaken : List Request
overtaken =
    record (offer "u1" "120.00") { phase = seeded }
    ∷ record (offer "u2" "130.00") { phase = activated }
    ∷ offer "u3" "140.00"
    ∷ []

abbrev late_turns : List (ℕ × ℕ)
late_turns = (0, 9001) ∷ (1, 9002) ∷ (0, 9003) ∷ (2, 9004) ∷ (0, 9005) ∷ []

schedule-late_example :
    let ((k, qs), accepted) = schedule lot late_turns overtaken no_keys in
    (accepted ≡ []) × Unmoved no_keys k
schedule-late_example =
    schedule-late lot late_turns overtaken no_keys
      (omega arith, (omega arith, (omega arith, (omega arith, (omega arith, tt)))))
      (tt, (tt, (tt, tt)))

abbrev all_up : Calls
all_up = record {
  reads = true;
  begins = true;
  queries = true;
  closes = true;
  inserts = true;
  settles = true;
  commits = true;
  sets_status = true;
  publishes = true;
  deletes = true;
}

abbrev no_commit : Calls
no_commit = record all_up { commits = false }

abbrev tries : List (Calls × ℕ)
tries = (no_commit, 9400) ∷ (all_up, 9500) ∷ (all_up, 9600) ∷ []

attempts-schedule_example :
    let ended : World = record {
      auction = some lot;
      winning_bid = none;
      keys = (schedule lot turns offers no_keys).0.0;
    } in
    let w = attempts tries 9000 ended in
    (All Fails tries × (w ≡ ended)) ⊎ (¬ All Fails tries × Settled lot "u2" "120.50" w)
unfolding schedule
attempts-schedule_example =
    attempts-schedule lot turns 0 offers no_keys (offer "u2" "120.50").bid tries refl turns-InOrder
      refl (refl, (refl, (refl, (refl, tt)))) refl refl
      (omega arith, (omega arith, (omega arith, tt)))

-- The winner, the price and the message to the watchers.
winner_told :
    let ended : World = record {
      auction = some lot;
      winning_bid = none;
      keys = (schedule lot turns offers no_keys).0.0;
    } in
    let w = attempts tries 9000 ended in
    (w.winning_bid ≡ some ("u2", "120.50"))
    × (w.keys.leader ≡ none)
    × (w.keys.updates
        ≡ price_update "120.00"
          ∷ price_update "120.50"
          ∷ settlement "SETTLED" "120.50" (some "u2")
          ∷ [])
unfolding schedule attempts
winner_told = (refl, refl, refl)

abbrev slow : List Request
slow = offer "u1" "200.00" ∷ offer "u2" "1.00" ∷ []

-- The second request has looked at the clock for the second time, the first has seeded the price.
abbrev before_settlement : List (ℕ × ℕ)
before_settlement = (1, 8990) ∷ (1, 8991) ∷ (1, 8992) ∷ (0, 8999) ∷ []

-- A bid of less than the starting price is accepted after the settlement, which has deleted the price,
-- when another request sets the status back in between.
late_bid_accepted :
    let ((k, qs), accepted) = schedule lot before_settlement slow no_keys in
    let ended : World = record { auction = some lot; winning_bid = none; keys = k } in
    let w = attempts ((all_up, 9000) ∷ []) 9000 ended in
    (w.auction ≡ some (record lot { status = "CLOSED" }))
    × ((schedule lot ((0, 9000) ∷ (1, 9001) ∷ []) qs w.keys).1 ≡ (offer "u2" "1.00").bid ∷ [])
unfolding schedule attempts
late_bid_accepted = (refl, refl)

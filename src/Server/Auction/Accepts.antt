-- ===== src/Server/Auction/Accepts.antt =====
-- Which bids are accepted.
use synora_hackathon.Prelude.{
  ℕ, ◌+◌, ◌*◌, ◌<◌, ◌≡◌, ◌↔◌, inl, inr, refl, true, Option, some, String, arith,
}
use synora_hackathon.Server.Redis.{Entry, Keys, get, set_nx, until}
use synora_hackathon.Server.Auction.{
  Row, row, Link, won, created, cents, eval_bid, is_biddable, ttl_seconds, bid_on, bid,
}
use synora_hackathon.Server.Auction.Effect.{bid_on-Effect, bid-takes}
use synora_hackathon.Server.Auction.Prices.{high, is_kept, seed-Stays, seeded_price, ends_later}

-- Every call of Redis goes through.
abbrev pub all_through : Link
all_through = record { sets_price = true; sets_status = true; evals = true }

abbrev marked : ℕ → Row → Option Entry
marked now r = some (record { text = "ACTIVE"; ends = until now r.end_time })

get-marked : (now : ℕ) (r : Row) → get now (marked now r) ≡ some "ACTIVE"
get-marked now r = ground arith

eval_bid-won :
    (now ends : ℕ) (user amount p : String) (k : Keys)
    → get now k.status ≡ some "ACTIVE"
    → get now k.price ≡ some p
    → cents p < cents amount
    → (eval_bid now ends amount user k).1 ≡ won
unfolding eval_bid
eval_bid-won now ends user amount p k a g h = rw (a, g) (ground arith)

bid_on-created :
    (now : ℕ) (user amount : String) (r : Row) (k : Keys)
    → is_biddable now r ≡ true
    → is_kept r k ≡ true
    → high r k < cents amount
    → (bid_on all_through now user amount r k).1 ≡ created
unfolding bid_on
bid_on-created now user amount r k takes o h =
    let n = ends_later now r takes in
    let (e, p, g) = seeded_price now r k n o in
    let same = (seed-Stays now r k (marked now r) n o).same_high in
    let price_is : cents e.text ≡ high r k = rw p at same in
    let read : get now (set_nx now r.starting_price k.price) ≡ some e.text = rw p g in
    let ready = record k { price = set_nx now r.starting_price k.price; status = marked now r } in
    let wins =
      eval_bid-won now (now + ttl_seconds now r.end_time * 1000) user amount e.text ready
        (get-marked now r) read (rw price_is h) in
    rw (takes, wins) refl

-- While the auction can be bid on, and every call of Redis goes through, a bid is answered by `created`
-- exactly where its amount is above the price.
pub bid-created_iff :
    (now : ℕ) (user amount : String) (r : Row) (k : Keys)
    → is_biddable now r ≡ true
    → is_kept r k ≡ true
    → ((bid all_through now user amount (row r) k).1 ≡ created) ↔ (high r k < cents amount)
bid-created_iff now user amount r k takes o = rw (bid-takes all_through now user amount r k takes) (
  (λ c. elim (bid_on-Effect all_through now user amount r k takes o) [
    | inl (d, wins) ↦ wins.above
    | inr (lost, stays) ↦ absurd (lost c)
  ]),
  bid_on-created now user amount r k takes o,
)

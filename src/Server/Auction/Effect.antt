-- ===== src/Server/Auction/Effect.antt =====
-- What the handler `bid` does to the price of an auction.
use synora_hackathon.Prelude.{
  ℕ, ◌≡◌, ◌⊎◌, true, false, some, String, arith, ltb, Bool-cases, inl, inr, refl,
}
use synora_hackathon.Server.Redis.{Entry, Keys, get, until}
use synora_hackathon.Server.Auction.{
  Row, row, Link, Reply, not_biddable, created, reply_of, eval_bid, is_biddable, bid_on, bid,
}
use synora_hackathon.Server.Auction.Prices.{
  kept_until, is_kept, Wins, Stays, Stays-same, Stays-trans, Stays-Wins, eval_bid_cases, seed-Stays,
  seeded_price, reply_of-created, ends_later, ttl_outlives,
}

-- What a bid does, by its reply.
abbrev pub Effect : Row → String → String → Keys → Keys × Reply → Type 0
Effect r user amount k (k', reply) =
    ((reply ≡ created) × Wins r user amount k k') ⊎ (((reply ≡ created) → ⊥) × Stays r k k')

pub script-Effect :
    (now ends : ℕ) (user amount : String) (r : Row) (k k' : Keys) (e : Entry)
    → ltb (kept_until r) ends ≡ true
    → Stays r k k'
    → k'.price ≡ some e
    → get now (some e) ≡ some e.text
    → let (k'', v) = eval_bid now ends amount user k' in
      Effect r user amount k (k'', reply_of amount v)
script-Effect now ends user amount r k k' e h s p g =
    elim (eval_bid_cases now ends user amount r k' e h p g s.kept) [
      | inl (v, wins) ↦ inl (rw v refl, Stays-Wins s wins)
      | inr (lost, stays) ↦ inr (λ c. lost (reply_of-created amount _ c), Stays-trans s stays)
    ]

pub bid_on-Effect :
    (link : Link) (now : ℕ) (user amount : String) (r : Row) (k : Keys)
    → is_biddable now r ≡ true
    → is_kept r k ≡ true
    → Effect r user amount k (bid_on link now user amount r k)
unfolding bid_on
bid_on-Effect link now user amount r k takes o =
    let n = ends_later now r takes in
    elim (Bool-cases link.sets_price) [
      | inr down ↦ rw down (inr (ground arith, Stays-same r k o))
      | inl sets ↦ elim (Bool-cases link.sets_status) [
        | inr down ↦ rw (sets, down) (inr (ground arith, seed-Stays now r k k.status n o))
        | inl sets' ↦ elim (Bool-cases link.evals) [
          | inr down ↦ rw (sets, sets', takes, down) (inr (ground arith, seed-Stays now r k _ n o))
          | inl evals ↦
              rw (sets, sets', takes, evals)
                (let (e, p, g) = seeded_price now r k n o in
                  script-Effect now _ user amount r k _ e (ttl_outlives now r n)
                    (seed-Stays now r k
                      (some (record { text = "ACTIVE"; ends = until now r.end_time })) n o)
                    p g)
        ]
      ]
    ]

pub bid-takes :
    (link : Link) (now : ℕ) (user amount : String) (r : Row) (k : Keys)
    → is_biddable now r ≡ true
    → bid link now user amount (row r) k ≡ bid_on link now user amount r k
unfolding bid
bid-takes link now user amount r k takes = rw takes refl

pub bid-over :
    (link : Link) (now : ℕ) (user amount : String) (r : Row) (k : Keys)
    → is_biddable now r ≡ false
    → bid link now user amount (row r) k ≡ (k, not_biddable)
unfolding bid
bid-over link now user amount r k over = rw over refl

-- Take any bid on an auction whose keys, if any, outlive its end, at any time, with any of the calls of
-- Redis failing. If it is answered by `created`, then its amount is above the price, and it is now the
-- price, published, with the user as the leader, until nearly a day after the end. Any other answer
-- leaves the price, the leader and what was published as they are.
pub bid-Effect :
    (link : Link) (now : ℕ) (user amount : String) (r : Row) (k : Keys)
    → is_kept r k ≡ true
    → Effect r user amount k (bid link now user amount (row r) k)
bid-Effect link now user amount r k o = elim (Bool-cases (is_biddable now r)) [
  | inl takes ↦
      rw (bid-takes link now user amount r k takes) (bid_on-Effect link now user amount r k takes o)
  | inr over ↦ rw (bid-over link now user amount r k over) (inr (ground arith, Stays-same r k o))
]

-- ===== src/Server/Auction/Requests/Late.antt =====
-- Requests to bid on an auction that is over.
use synora_hackathon.Prelude.{
  ℕ, zero, suc, ◌<◌, ◌≡◌, refl, ◌∙◌, false, List, [], ◌∷◌, arith, Bool-cases, inl, inr, All,
}
use synora_hackathon.Server.Redis.{Keys}
use synora_hackathon.Server.Auction.{Row, Bid, is_biddable}
use synora_hackathon.Server.Auction.Requests.{
  Phase, asked, seeded, activated, timed, answered, Request, advance, has_won, turn, schedule,
}

-- The request has not come past its second look at the clock, or is answered.
abbrev IsBehind : Phase → Type 0
IsBehind (timed since) = ⊥
IsBehind _ = Unit

abbrev pub IsUntimed : Request → Type 0
IsUntimed q = IsBehind q.phase

abbrev pub IsOver : Row → ℕ × ℕ → Type 0
IsOver r (i, now) = r.end_time < now

-- No bid: the same price and leader, and nothing published.
pub record Unmoved (k k' : Keys) : Type 0 where
  pub same_price : k'.price ≡ k.price
  pub same_leader : k'.leader ≡ k.leader
  pub same_updates : k'.updates ≡ k.updates

Unmoved-same : (k : Keys) → Unmoved k k
Unmoved-same k = record { same_price = refl; same_leader = refl; same_updates = refl }

Unmoved-trans : (a b c : Keys) → Unmoved a b → Unmoved b c → Unmoved a c
Unmoved-trans a b c h k = record {
  same_price = k.same_price ∙ h.same_price;
  same_leader = k.same_leader ∙ h.same_leader;
  same_updates = k.same_updates ∙ h.same_updates;
}

over-not_biddable : (r : Row) (now : ℕ) → r.end_time < now → is_biddable now r ≡ false
over-not_biddable r now h = ground arith

abbrev Loses : Phase → Keys → Keys × Phase → Type 0
Loses p k (k', p') = (has_won p p' ≡ false) × IsBehind p' × Unmoved k k'

advance-Loses :
    (r : Row) (now : ℕ) (b : Bid) (p : Phase) (k : Keys)
    → r.end_time < now
    → IsBehind p
    → Loses p k (advance r now b p k)
unfolding advance
advance-Loses r now b asked k h u = rw (over-not_biddable r now h) (refl, tt, Unmoved-same k)
advance-Loses r now b seeded k h u = elim (Bool-cases b.link.sets_status) [
  | inr down ↦ rw down (refl, tt, Unmoved-same k)
  | inl sets ↦
      rw sets (refl, tt, record { same_price = refl; same_leader = refl; same_updates = refl })
]
advance-Loses r now b activated k h u = rw (over-not_biddable r now h) (refl, tt, Unmoved-same k)
advance-Loses r now b (timed since) k h u = elim u [ ]
advance-Loses r now b (answered reply) k h u = (refl, tt, Unmoved-same k)

abbrev Ends : Keys → (Keys × List Request) × List Bid → Type 0
Ends k ((k', qs'), accepted) = (accepted ≡ []) × All IsUntimed qs' × Unmoved k k'

turn-Ends :
    (r : Row) (i now : ℕ) (qs : List Request) (k : Keys)
    → r.end_time < now
    → All IsUntimed qs
    → Ends k (turn r i now qs k)
unfolding turn
turn-Ends r i now [] k h u = (refl, tt, Unmoved-same k)
turn-Ends r zero now (q ∷ qs) k h (u, us) =
    let (lost, behind, same) = advance-Loses r now q.bid q.phase k h u in
    (rw lost refl, (behind, us), same)
turn-Ends r (suc i) now (q ∷ qs) k h (u, us) =
    let (nobody, behind, same) = turn-Ends r i now qs k h us in (nobody, (u, behind), same)

-- Take any requests to bid, none of which stands between its second look at the clock and the script,
-- whatever parts of them have run and whatever calls of Redis fail, and any turns at times after the
-- auction's end. No bid is accepted, no update is published, and the price and the leader stay.
pub schedule-late :
    (r : Row) (turns : List (ℕ × ℕ)) (qs : List Request) (k : Keys)
    → All (IsOver r) turns
    → All IsUntimed qs
    → let ((k', qs'), accepted) = schedule r turns qs k in (accepted ≡ []) × Unmoved k k'
unfolding schedule
schedule-late r [] qs k h u = (refl, Unmoved-same k)
schedule-late r ((i, now) ∷ turns) qs k (h, hs) u =
    let (nobody, behind, same) = turn-Ends r i now qs k h u in
    let k' = (turn r i now qs k).0.0 in
    let (none_later, later) = schedule-late r turns (turn r i now qs k).0.1 k' hs behind in
    (rw (nobody, none_later) refl, Unmoved-trans k k' _ same later)

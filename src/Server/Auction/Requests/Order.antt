-- ===== src/Server/Auction/Requests/Order.antt =====
-- The price of an auction under requests that interleave.
use synora_hackathon.Prelude.{
  ℕ, zero, suc, ◌+◌, ◌*◌, ◌≤◌, ◌≡◌, ◌⊎◌, inl, inr, refl, Bool, true, false, some, List, [], ◌∷◌,
  ◌++◌, arith, ltb, Bool-cases, All,
}
use synora_hackathon.Server.Redis.{Entry, Keys}
use synora_hackathon.Server.Auction.{Row, Bid, reply_of, is_biddable, ttl_seconds, eval_bid}
use synora_hackathon.Server.Auction.Prices.{
  kept_until, is_kept, Wins, Stays, Stays-same, get-outlives, seed-Stays, seeded_price,
  eval_bid_cases, ends_later, reply_of-created,
}
use synora_hackathon.Server.Auction.Rise.{
  Rise, Rise-Wins, Rise-Stays, Leads-is_kept, Rise-none, not_created,
}
use synora_hackathon.Server.Auction.Requests.{
  Phase, asked, seeded, activated, timed, answered, Request, advance, has_won, turn, schedule,
}

-- The turns come in the order of their times, none later than a second less than a day after the end.
abbrev pub InOrder : Row → ℕ → List (ℕ × ℕ) → Type 0
InOrder r from [] = Unit
InOrder r from ((i, now) ∷ turns) = (from ≤ now) × (now ≤ kept_until r) × InOrder r now turns

abbrev HasPrice : Keys → Type 0
HasPrice k = (e : Entry) × (k.price ≡ some e)

-- A request that has gone on to Redis has seen to it that there is a price.
abbrev Fine : Row → ℕ → Keys → Phase → Type 0
Fine r now k asked = Unit
Fine r now k seeded = HasPrice k
Fine r now k activated = HasPrice k
Fine r now k (timed since) = HasPrice k × (since ≤ now) × (since ≤ r.end_time)
Fine r now k (answered reply) = Unit

abbrev Moves : Row → Bid → Bool → Keys → Keys → Type 0
Moves r b w k k' = ((w ≡ true) × Wins r b.user b.amount k k') ⊎ ((w ≡ false) × Stays r k k')

ttl_lasts :
    (since now : ℕ) (r : Row)
    → since ≤ now
    → since ≤ r.end_time
    → ltb (kept_until r) (now + ttl_seconds since r.end_time * 1000) ≡ true
ttl_lasts since now r h n = ground arith

Fine-later :
    (r : Row) (from now : ℕ) (k k' : Keys) (p : Phase)
    → from ≤ now
    → (HasPrice k → HasPrice k')
    → Fine r from k p
    → Fine r now k' p
Fine-later r from now k k' asked n f h = tt
Fine-later r from now k k' seeded n f h = f h
Fine-later r from now k k' activated n f h = f h
Fine-later r from now k k' (timed since) n f (h, s, e) = (f h, ground arith, e)
Fine-later r from now k k' (answered reply) n f h = tt

Moves-HasPrice :
    (r : Row) (b : Bid) (w : Bool) (k k' : Keys) → Moves r b w k k' → HasPrice k → HasPrice k'
Moves-HasPrice r b w k k' (inl (e, wins)) h = (_, wins.leads.priced)
Moves-HasPrice r b w k k' (inr (e, stays)) (x, h) = (x, stays.same_price x h)

-- What one part of a request does.
abbrev Advances : Row → ℕ → Bid → Phase → Keys → Keys × Phase → Type 0
Advances r now b p k (k', p') = Moves r b (has_won p p') k k' × Fine r now k' p'

eval_Advances :
    (r : Row) (now since : ℕ) (b : Bid) (k : Keys)
    → now ≤ kept_until r
    → is_kept r k ≡ true
    → Fine r now k (timed since)
    → let (k', v) = eval_bid now (now + ttl_seconds since r.end_time * 1000) b.amount b.user k in
      Advances r now b (timed since) k (k', answered (reply_of b.amount v))
eval_Advances r now since b k n o ((e, there), s, l) =
    elim (eval_bid_cases now _ b.user b.amount r k e (ttl_lasts since now r s l) there
      (get-outlives now r e n (ground arith)) o) [
        | inl (v, wins) ↦ (inl (rw v refl, wins), tt)
        | inr (lost, stays) ↦
            (inr (not_created _ (λ c. lost (reply_of-created b.amount _ c)), stays), tt)
      ]

advance-Advances :
    (r : Row) (now : ℕ) (b : Bid) (p : Phase) (k : Keys)
    → now ≤ kept_until r
    → is_kept r k ≡ true
    → Fine r now k p
    → Advances r now b p k (advance r now b p k)
unfolding advance
advance-Advances r now b asked k n o h = elim (Bool-cases (is_biddable now r)) [
  | inr over ↦ rw over (inr (ground arith, Stays-same r k o), tt)
  | inl takes ↦ elim (Bool-cases b.link.sets_price) [
    | inr down ↦ rw (takes, down) (inr (ground arith, Stays-same r k o), tt)
    | inl sets ↦
        rw (takes, sets)
          (
            inr (refl, seed-Stays now r k k.status (ends_later now r takes) o),
            (let (e, q, g) = seeded_price now r k (ends_later now r takes) o in (e, q)),
          )
  ]
]
advance-Advances r now b seeded k n o h = elim (Bool-cases b.link.sets_status) [
  | inr down ↦ rw down (inr (ground arith, Stays-same r k o), tt)
  | inl sets ↦ rw sets (
    inr (
      refl,
      record {
        same_high = refl;
        same_updates = refl;
        same_leader = refl;
        same_price = λ e q. q;
        kept = o;
      },
    ),
    h,
  )
]
advance-Advances r now b activated k n o h = elim (Bool-cases (is_biddable now r)) [
  | inr over ↦ rw over (inr (ground arith, Stays-same r k o), tt)
  | inl takes ↦ rw takes (inr (refl, Stays-same r k o), (h, ground arith, ends_later now r takes))
]
advance-Advances r now b (timed since) k n o h = elim (Bool-cases b.link.evals) [
  | inr down ↦ rw down (inr (ground arith, Stays-same r k o), tt)
  | inl evals ↦ rw evals (eval_Advances r now since b k n o h)
]
advance-Advances r now b (answered reply) k n o h = (inr (refl, Stays-same r k o), tt)

abbrev FineAt : Row → ℕ → Keys → Request → Type 0
FineAt r now k q = Fine r now k q.phase

All-later :
    (r : Row) (from now : ℕ) (k k' : Keys) (qs : List Request)
    → from ≤ now
    → (HasPrice k → HasPrice k')
    → All (FineAt r from k) qs
    → All (FineAt r now k') qs
All-later r from now k k' [] n f h = tt
All-later r from now k k' (q ∷ qs) n f (h, hs) =
    (Fine-later r from now k k' q.phase n f h, All-later r from now k k' qs n f hs)

-- What one turn does: it accepts one bid or none.
abbrev Turned : Row → Keys → Keys → List Bid → Type 0
Turned r k k' accepted =
    ((b : Bid) × (accepted ≡ b ∷ []) × Wins r b.user b.amount k k')
    ⊎ ((accepted ≡ []) × Stays r k k')

Turned-HasPrice :
    (r : Row) (k k' : Keys) (bs : List Bid) → Turned r k k' bs → HasPrice k → HasPrice k'
Turned-HasPrice r k k' bs (inl (b, e, wins)) h = (_, wins.leads.priced)
Turned-HasPrice r k k' bs (inr (e, stays)) (x, h) = (x, stays.same_price x h)

Turned-is_kept : (r : Row) (k k' : Keys) (bs : List Bid) → Turned r k k' bs → is_kept r k' ≡ true
Turned-is_kept r k k' bs (inl (b, e, wins)) = Leads-is_kept wins.leads
Turned-is_kept r k k' bs (inr (e, stays)) = stays.kept

turn-Turned :
    (r : Row) (i now : ℕ) (qs : List Request) (k : Keys)
    → now ≤ kept_until r
    → is_kept r k ≡ true
    → All (FineAt r now k) qs
    → let ((k', qs'), accepted) = turn r i now qs k in
      Turned r k k' accepted × All (FineAt r now k') qs'
unfolding turn
turn-Turned r zero now [] k n o h = (inr (refl, Stays-same r k o), tt)
turn-Turned r (suc i) now [] k n o h = (inr (refl, Stays-same r k o), tt)
turn-Turned r zero now (q ∷ qs) k n o (h, hs) =
    let (moves, fine) = advance-Advances r now q.bid q.phase k n o h in
    let k' = (advance r now q.bid q.phase k).0 in
    let later =
      All-later r now now k k' qs (omega arith) (Moves-HasPrice r q.bid _ k k' moves) hs in
    elim moves [
      | inl (w, wins) ↦ (inl (q.bid, rw w refl, wins), (fine, later))
      | inr (w, stays) ↦ (inr (rw w refl, stays), (fine, later))
    ]
turn-Turned r (suc i) now (q ∷ qs) k n o (h, hs) =
    let (turned, fine) = turn-Turned r i now qs k n o hs in
    let k' = (turn r i now qs k).0.0 in
    (
      turned,
      (Fine-later r now now k k' q.phase (omega arith) (Turned-HasPrice r k k' _ turned) h, fine),
    )

Rise-Turned :
    (r : Row) (k k' k'' : Keys) (first more : List Bid)
    → Turned r k k' first
    → Rise r k' k'' more
    → Rise r k k'' (first ++ more)
Rise-Turned r k k' k'' first more (inl (b, e, wins)) rise = rw e (Rise-Wins r b more wins rise)
Rise-Turned r k k' k'' first more (inr (e, stays)) rise = rw e (Rise-Stays r more stays rise)

schedule-Fine :
    (r : Row) (turns : List (ℕ × ℕ)) (from : ℕ) (qs : List Request) (k : Keys)
    → InOrder r from turns
    → is_kept r k ≡ true
    → All (FineAt r from k) qs
    → let ((k', qs'), accepted) = schedule r turns qs k in Rise r k k' accepted
unfolding schedule
schedule-Fine r [] from qs k t o h = Rise-none r k o
schedule-Fine r ((i, now) ∷ turns) from qs k (a, n, t) o h =
    let hs = All-later r from now k k qs a (λ x. x) h in
    let (turned, fine) = turn-Turned r i now qs k n o hs in
    let ((k', qs'), first) = turn r i now qs k in
    Rise-Turned r k k' _ first _ turned
      (schedule-Fine r turns now qs' k' t (Turned-is_kept r k k' first turned) fine)

abbrev pub IsNew : Request → Type 0
IsNew q = q.phase ≡ asked

All-new :
    (r : Row) (now : ℕ) (k : Keys) (qs : List Request) → All IsNew qs → All (FineAt r now k) qs
All-new r now k [] h = tt
All-new r now k (q ∷ qs) (h, hs) = (rw h tt, All-new r now k qs hs)

-- Take any requests to bid on an auction whose keys, if any, outlive its end, let their parts come in any
-- order, at times that do not go back and end within a day of the auction's end, less a second, and let
-- any of the calls of Redis fail. The amounts that are accepted rise strictly, from above the price
-- before; exactly they are published, in order; and in the end the keys hold the last of them as the
-- price and its user as the leader, or, where there is none, the price and the leader as before.
pub schedule-Rise :
    (r : Row) (turns : List (ℕ × ℕ)) (from : ℕ) (qs : List Request) (k : Keys)
    → InOrder r from turns
    → is_kept r k ≡ true
    → All IsNew qs
    → let ((k', qs'), accepted) = schedule r turns qs k in Rise r k k' accepted
schedule-Rise r turns from qs k t o h = schedule-Fine r turns from qs k t o (All-new r from k qs h)

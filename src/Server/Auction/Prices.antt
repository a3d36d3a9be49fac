-- ===== src/Server/Auction/Prices.antt =====
-- The price of an auction through one bid.
use synora_hackathon.Prelude.{
  ℕ, ◌+◌, ◌*◌, ◌≤◌, ◌<◌, ◌≡◌, ◌⊎◌, Bool, true, ◌&&◌, Option, none, some, [], ◌∷◌, ◌++◌, String,
  arith, ltb, Bool-cases, Option-cases, inl, inr, refl, ◌∙◌,
}
use synora_hackathon.Server.Redis.{Entry, price_update, Keys, get, set_nx}
use synora_hackathon.Server.Auction.{
  Row, Verdict, won, created, reply_of, cents, eval_bid, is_active, is_low, is_biddable,
  ttl_seconds,
}

-- A key that is there after `t`.
abbrev pub outlives : ℕ → Option Entry → Bool
outlives t none = true
outlives t (some e) = elim e.ends [ none ↦ true | some ends ↦ ltb t ends ]

-- A second less than a day after the end, in milliseconds.
abbrev pub kept_until : Row → ℕ
kept_until r = r.end_time + 86399000

abbrev pub is_kept : Row → Keys → Bool
is_kept r k = outlives (kept_until r) k.price && outlives (kept_until r) k.leader

-- The cents of the price, or of the starting price before the first bid.
abbrev pub high : Row → Keys → ℕ
high r k = elim k.price [ none ↦ cents r.starting_price | some e ↦ cents e.text ]

-- The keys of an auction that `user` leads with `amount`.
pub record Leads (r : Row) (user amount : String) (k : Keys) : Type 0 where
  pub ends : ℕ
  pub lasts : ltb (kept_until r) ends ≡ true
  pub priced : k.price ≡ some (record { text = amount; ends = some ends })
  pub led : k.leader ≡ some (record { text = user; ends = some ends })

-- What an accepted bid makes of the keys.
pub record Wins (r : Row) (user amount : String) (k k' : Keys) : Type 0 where
  pub above : high r k < cents amount
  pub published : k'.updates ≡ k.updates ++ price_update amount ∷ []
  pub leads : Leads r user amount k'

-- What any other bid leaves.
pub record Stays (r : Row) (k k' : Keys) : Type 0 where
  pub same_high : high r k' ≡ high r k
  pub same_updates : k'.updates ≡ k.updates
  pub same_leader : k'.leader ≡ k.leader
  pub same_price : (e : Entry) → k.price ≡ some e → k'.price ≡ some e
  pub kept : is_kept r k' ≡ true

pub ttl_outlives :
    (now : ℕ) (r : Row)
    → now ≤ r.end_time
    → ltb (kept_until r) (now + ttl_seconds now r.end_time * 1000) ≡ true
ttl_outlives now r h = ground arith

pub get-outlives :
    (now : ℕ) (r : Row) (e : Entry)
    → now ≤ kept_until r
    → outlives (kept_until r) (some e) ≡ true
    → get now (some e) ≡ some e.text
get-outlives now r e n h = ground arith

pub Stays-same : (r : Row) (k : Keys) → is_kept r k ≡ true → Stays r k k
Stays-same r k o = record {
  same_high = refl;
  same_updates = refl;
  same_leader = refl;
  same_price = λ e q. q;
  kept = o;
}

pub eval_bid_cases :
    (now ends : ℕ) (user amount : String) (r : Row) (k : Keys) (e : Entry)
    → ltb (kept_until r) ends ≡ true
    → k.price ≡ some e
    → get now (some e) ≡ some e.text
    → is_kept r k ≡ true
    → let (k', verdict) = eval_bid now ends amount user k in
      ((verdict ≡ won) × Wins r user amount k k') ⊎ (((verdict ≡ won) → ⊥) × Stays r k k')
unfolding eval_bid
eval_bid_cases now ends user amount r k e h pe g o =
    elim (Bool-cases (is_active (get now k.status))) [
      | inr closed ↦ inr (ground arith, rw closed (Stays-same r k o))
      | inl active ↦ elim (Bool-cases (is_low amount (get now k.price))) [
        | inl low ↦ inr (
          ground arith,
          record {
            same_high = ground arith;
            same_updates = ground arith;
            same_leader = ground arith;
            same_price = λ e' q. ground arith;
            kept = ground arith;
          },
        )
        | inr more ↦ inl (
          ground arith,
          record {
            above = ground arith;
            published = ground arith;
            leads = record { ends = ends; lasts = h; priced = ground arith; led = ground arith };
          },
        )
      ]
    ]

pub set_nx_cases :
    (now : ℕ) (r : Row) (k : Keys)
    → now ≤ r.end_time
    → is_kept r k ≡ true
    → ((k.price ≡ none)
        × (set_nx now r.starting_price k.price
            ≡ some (record { text = r.starting_price; ends = none })))
      ⊎ ((e : Entry) × (k.price ≡ some e) × (set_nx now r.starting_price k.price ≡ some e))
set_nx_cases now r k n o = elim (Option-cases k.price) [
  | inl fresh ↦ inl (fresh, ground arith)
  | inr (e, there) ↦
      inr (e, there, let g = get-outlives now r e (ground arith) (ground arith) in ground arith)
]

pub seed-Stays :
    (now : ℕ) (r : Row) (k : Keys) (status : Option Entry)
    → now ≤ r.end_time
    → is_kept r k ≡ true
    → Stays r k (record k { price = set_nx now r.starting_price k.price; status = status })
seed-Stays now r k status n o = elim (set_nx_cases now r k n o) [
  | inl (fresh, seeded) ↦ record {
    same_high = ground arith;
    same_updates = refl;
    same_leader = refl;
    same_price = λ e q. ground arith;
    kept = ground arith;
  }
  | inr (e, there, same) ↦ record {
    same_high = ground arith;
    same_updates = refl;
    same_leader = refl;
    same_price = λ e q. ground arith;
    kept = ground arith;
  }
]

pub Stays-trans : {r : Row} {k k' k'' : Keys} → Stays r k k' → Stays r k' k'' → Stays r k k''
Stays-trans a b = record {
  same_high = b.same_high ∙ a.same_high;
  same_updates = b.same_updates ∙ a.same_updates;
  same_leader = b.same_leader ∙ a.same_leader;
  same_price = λ e q. b.same_price e (a.same_price e q);
  kept = b.kept;
}

pub Stays-Wins :
    {r : Row} {user amount : String} {k k' k'' : Keys}
    → Stays r k k'
    → Wins r user amount k' k''
    → Wins r user amount k k''
Stays-Wins a b = record {
  above = rw a.same_high at b.above;
  published = rw a.same_updates at b.published;
  leads = b.leads;
}

pub seeded_price :
    (now : ℕ) (r : Row) (k : Keys)
    → now ≤ r.end_time
    → is_kept r k ≡ true
    → (e : Entry) × (set_nx now r.starting_price k.price ≡ some e)
      × (get now (some e) ≡ some e.text)
seeded_price now r k n o = elim (set_nx_cases now r k n o) [
  | inl (fresh, seeded) ↦ (record { text = r.starting_price; ends = none }, seeded, refl)
  | inr (e, there, same) ↦ (e, same, get-outlives now r e (ground arith) (ground arith))
]

pub reply_of-created : (amount : String) (v : Verdict) → reply_of amount v ≡ created → v ≡ won
reply_of-created amount v h = ground arith

pub ends_later : (now : ℕ) (r : Row) → is_biddable now r ≡ true → now ≤ r.end_time
ends_later now r takes = ground arith

-- ===== src/Server/Settlement/Winner.antt =====
-- What the settlement of an auction that a bid leads comes to.
use synora_hackathon.Prelude.{
  ℕ, ◌≤◌, ◌≡◌, ◌⊎◌, inl, inr, refl, Bool, true, false, ◌&&◌, none, some, List, [], ◌∷◌, String,
  str_eq, arith, Bool-cases, All,
}
use synora_hackathon.Js.Text.{is_empty}
use synora_hackathon.Server.Redis.{get}
use synora_hackathon.Server.Auction.{Row, text_of_key}
use synora_hackathon.Server.Auction.Prices.{Leads, kept_until}
use synora_hackathon.Server.Settlement.{World, Calls, settle, settle_active, attempts, sold}

-- The calls up to the commit go through.
abbrev pub commits_all : Calls → Bool
commits_all c =
    (c.reads && c.begins && c.queries) && c.closes && (c.inserts && c.settles) && c.commits

pub record Settled (r : Row) (user amount : String) (w : World) : Type 0 where
  pub auction_row :
      w.auction ≡ some (record r { status = "SETTLED"; current_high = amount; winner = some user })
  pub winning_row : w.winning_bid ≡ some (user, amount)

-- An auction that has ended with a leader, before it is settled.
pub record Led (r : Row) (user amount : String) (w : World) : Type 0 where
  pub auction_row : w.auction ≡ some r
  pub active : str_eq r.status "ACTIVE" ≡ true
  pub fresh : w.winning_bid ≡ none
  pub leads : Leads r user amount w.keys
  pub named : is_empty user ≡ false
  pub priced : is_empty amount ≡ false

Led-reads :
    {r : Row} {user amount : String} {w : World} (now : ℕ)
    → now ≤ kept_until r
    → Led r user amount w
    → (text_of_key (get now w.keys.price) ≡ amount) × (text_of_key (get now w.keys.leader) ≡ user)
Led-reads now n l =
    let leads = l.leads in
    let h = leads.lasts in rw (leads.priced, leads.led) (ground arith, ground arith)

settle_active-sold :
    (calls : Calls) (now end : ℕ) (r : Row) (user amount : String) (w : World)
    → w.winning_bid ≡ none
    → let (w', outcome) = settle_active calls now end (sold amount user) r w in
      let writes = (calls.inserts && calls.settles) && calls.commits in
      ((writes ≡ false) × (w' ≡ w)) ⊎ ((writes ≡ true) × Settled r user amount w')
unfolding settle_active
settle_active-sold calls now end r user amount w fresh =
    elim (Bool-cases (calls.inserts && calls.settles)) [
      | inr down ↦ inl (ground arith, ground arith)
      | inl writes ↦ elim (Bool-cases calls.commits) [
        | inr down ↦ inl (ground arith, ground arith)
        | inl commits ↦
            inr (ground arith, record { auction_row = ground arith; winning_row = ground arith })
      ]
    ]

settle-Led :
    (calls : Calls) (now : ℕ) (r : Row) (user amount : String) (w : World)
    → now ≤ kept_until r
    → Led r user amount w
    → let (w', outcome) = settle calls now r.end_time w in
      ((commits_all calls ≡ false) × (w' ≡ w))
      ⊎ ((commits_all calls ≡ true) × Settled r user amount w')
unfolding settle
settle-Led calls now r user amount w n l =
    let (p, q) = Led-reads now n l in
    elim (Bool-cases (calls.reads && calls.begins && calls.queries)) [
      | inr down ↦ inl (ground arith, ground arith)
      | inl found ↦ elim (Bool-cases calls.closes) [
        | inr down ↦ inl (ground arith, ground (arith, l.auction_row, l.active))
        | inl closes ↦ elim (settle_active-sold calls now r.end_time r user amount w l.fresh) [
          | inl (down, same) ↦ inl (ground arith, ground arith)
          | inr (writes, settled) ↦ inr (
            ground arith,
            record {
              auction_row = let h = settled.auction_row in ground arith;
              winning_row = let h = settled.winning_row in ground arith;
            },
          )
        ]
      ]
    ]

settle-Settled :
    (calls : Calls) (now end : ℕ) (r : Row) (user amount : String) (w : World)
    → Settled r user amount w
    → (settle calls now end w).0 ≡ w
unfolding settle
settle-Settled calls now end r user amount w s = let h = s.auction_row in ground arith

attempts-Settled :
    (tries : List (Calls × ℕ)) (end : ℕ) (r : Row) (user amount : String) (w : World)
    → Settled r user amount w
    → Settled r user amount (attempts tries end w)
unfolding attempts
attempts-Settled [] end r user amount w s = s
attempts-Settled ((calls, now) ∷ tries) end r user amount w s =
    rw (settle-Settled calls now end r user amount w s)
      (attempts-Settled tries end r user amount w s)

-- An attempt in time.
abbrev pub InTime : Row → Calls × ℕ → Type 0
InTime r (calls, now) = now ≤ kept_until r

abbrev pub Fails : Calls × ℕ → Type 0
Fails (calls, now) = commits_all calls ≡ false

pub attempts-Led :
    (tries : List (Calls × ℕ)) (r : Row) (user amount : String) (w : World)
    → All (InTime r) tries
    → Led r user amount w
    → let w' = attempts tries r.end_time w in
      (All Fails tries × (w' ≡ w)) ⊎ (¬ All Fails tries × Settled r user amount w')
unfolding attempts
attempts-Led [] r user amount w h l = inl (tt, refl)
attempts-Led ((calls, now) ∷ tries) r user amount w (n, h) l =
    elim (settle-Led calls now r user amount w n l) [
      | inl (down, same) ↦ rw same (elim (attempts-Led tries r user amount w h l) [
        | inl (fails, still) ↦ inl ((down, fails), still)
        | inr (some_go, settled) ↦ inr (λ all. some_go all.1, settled)
      ])
      | inr (up, settled) ↦
          inr (λ all. ground arith, attempts-Settled tries r.end_time r user amount _ settled)
    ]

-- ===== src/Server/Auction/Rise.antt =====
-- The price, the leader and what is published through a sequence of accepted bids on one auction.
use synora_hackathon.Prelude.{
  ℕ, ◌<◌, ◌≡◌, refl, sym, ◌∙◌, ap, append-nil, append_assoc, true, false, List, [], ◌∷◌, ◌++◌, map,
  String, arith,
}
use synora_hackathon.Server.Redis.{price_update, Keys}
use synora_hackathon.Server.Auction.{Row, Bid, Reply, created, is_created, cents}
use synora_hackathon.Server.Auction.Prices.{
  high, is_kept, Wins, Stays, Leads, Stays-same, Stays-trans,
}

-- Each amount is above the one before it, the first above `from`.
abbrev pub Rises : ℕ → List Bid → Type 0
Rises from [] = Unit
Rises from (b ∷ bs) = (from < cents b.amount) × Rises (cents b.amount) bs

-- The last of the accepted bids leads, or nothing has changed where there is none.
abbrev pub LastLeads : Row → List Bid → Keys → Keys → Type 0
LastLeads r [] k k' = Stays r k k'
LastLeads r (b ∷ []) k k' = Leads r b.user b.amount k'
LastLeads r (b ∷ c ∷ bs) k k' = LastLeads r (c ∷ bs) k k'

pub record Rise (r : Row) (k k' : Keys) (accepted : List Bid) : Type 0 where
  pub rising : Rises (high r k) accepted
  pub published : k'.updates ≡ k.updates ++ map (λ b. price_update b.amount) accepted
  pub last : LastLeads r accepted k k'

pub Leads-is_kept :
    {r : Row} {user amount : String} {k : Keys} → Leads r user amount k → is_kept r k ≡ true
Leads-is_kept l = rw (l.priced, l.led, l.lasts) refl

Leads-high :
    {r : Row} {user amount : String} {k : Keys} → Leads r user amount k → high r k ≡ cents amount
Leads-high l = rw l.priced refl

Leads-Stays :
    {r : Row} {user amount : String} {k k' : Keys}
    → Leads r user amount k
    → Stays r k k'
    → Leads r user amount k'
Leads-Stays l s = record {
  ends = l.ends;
  lasts = l.lasts;
  priced = s.same_price _ l.priced;
  led = s.same_leader ∙ l.led;
}

LastLeads-from :
    (r : Row) (b : Bid) (bs : List Bid) (k k' k'' : Keys)
    → LastLeads r (b ∷ bs) k' k''
    → LastLeads r (b ∷ bs) k k''
LastLeads-from r b [] k k' k'' last = last
LastLeads-from r b (c ∷ bs) k k' k'' last = LastLeads-from r c bs k k' k'' last

LastLeads-Leads :
    (r : Row) (b : Bid) (bs : List Bid) (k k' k'' : Keys)
    → Leads r b.user b.amount k'
    → LastLeads r bs k' k''
    → LastLeads r (b ∷ bs) k k''
LastLeads-Leads r b [] k k' k'' l s = Leads-Stays l s
LastLeads-Leads r b (c ∷ bs) k k' k'' l last = LastLeads-from r c bs k k' k'' last

LastLeads-Stays :
    (r : Row) (bs : List Bid) (k k' k'' : Keys)
    → Stays r k k'
    → LastLeads r bs k' k''
    → LastLeads r bs k k''
LastLeads-Stays r [] k k' k'' s t = Stays-trans s t
LastLeads-Stays r (b ∷ bs) k k' k'' s last = LastLeads-from r b bs k k' k'' last

pub Rise-Wins :
    (r : Row) (b : Bid) (bs : List Bid) {k k' k'' : Keys}
    → Wins r b.user b.amount k k'
    → Rise r k' k'' bs
    → Rise r k k'' (b ∷ bs)
Rise-Wins r b bs w i = record {
  rising = (w.above, rw (Leads-high w.leads) at i.rising);
  published =
      i.published
      ∙ ap (λ us. us ++ map (λ b. price_update b.amount) bs) w.published
      ∙ append_assoc _ (price_update b.amount ∷ []) _;
  last = LastLeads-Leads r b bs _ _ _ w.leads i.last;
}

pub Rise-Stays :
    (r : Row) (bs : List Bid) {k k' k'' : Keys} → Stays r k k' → Rise r k' k'' bs → Rise r k k'' bs
Rise-Stays r bs s i = record {
  rising = rw s.same_high at i.rising;
  published = rw s.same_updates at i.published;
  last = LastLeads-Stays r bs _ _ _ s i.last;
}

pub not_created : (reply : Reply) → (reply ≡ created → ⊥) → is_created reply ≡ false
not_created reply n = ground arith

pub Rise-none : (r : Row) (k : Keys) → is_kept r k ≡ true → Rise r k k []
Rise-none r k o = record { rising = tt; published = sym (append-nil _); last = Stays-same r k o }

-- ===== src/Server/Settlement/Sale.antt =====
-- An auction from its first bid to its settlement.
use synora_hackathon.Prelude.{
  ℕ, ◌<◌, ◌≡◌, ◌⊎◌, refl, true, false, Option, none, some, List, [], ◌∷◌, String, str_eq, arith,
  All,
}
use mathlib.Core.Option.{some-injective}
use synora_hackathon.Js.Text.{is_empty}
use synora_hackathon.Server.Redis.{Keys}
use synora_hackathon.Server.Auction.{Row, Bid, cents}
use synora_hackathon.Server.Auction.Prices.{Leads, is_kept, high}
use synora_hackathon.Server.Auction.Rise.{Rises, LastLeads}
use synora_hackathon.Server.Auction.Requests.{Request, schedule}
use synora_hackathon.Server.Auction.Requests.Order.{InOrder, IsNew, schedule-Rise}
use synora_hackathon.Server.Settlement.{World, Calls, attempts}
use synora_hackathon.Server.Settlement.Winner.{Settled, InTime, Fails, attempts-Led}

abbrev pub last : List Bid → Option Bid
last [] = none
last (b ∷ []) = some b
last (b ∷ c ∷ bs) = last (c ∷ bs)

LastLeads-last :
    (r : Row) (bs : List Bid) (b : Bid) (k k' : Keys)
    → last bs ≡ some b
    → LastLeads r bs k k'
    → Leads r b.user b.amount k'
LastLeads-last r [] b k k' e s = ground arith
LastLeads-last r (a ∷ []) b k k' e l = rw⁻¹ (some-injective _ _ e) l
LastLeads-last r (a ∷ c ∷ bs) b k k' e l = LastLeads-last r (c ∷ bs) b k k' e l

pub cents_pos : (from : ℕ) (amount : String) → from < cents amount → is_empty amount ≡ false
unfolding cents
cents_pos from String.[] h = ground arith
cents_pos from (String.◌∷◌ c s) h = refl

Rises-last :
    (from : ℕ) (bs : List Bid) (b : Bid)
    → last bs ≡ some b
    → Rises from bs
    → is_empty b.amount ≡ false
Rises-last from [] b e h = ground arith
Rises-last from (a ∷ []) b e (h, t) = rw⁻¹ (some-injective _ _ e) (cents_pos from a.amount h)
Rises-last from (a ∷ c ∷ bs) b e (h, t) = Rises-last (cents a.amount) (c ∷ bs) b e t

-- Take an active auction whose keys, if any, outlive its end, new requests to bid on it whose parts come
-- in any order at times that do not go back, with at least one bid accepted, and any attempts to settle
-- the auction after that, all within a day of its end, less a second, with any calls failing. If no
-- attempt gets as far as its commit, then the database and the keys are as the requests left them.
-- Otherwise the auction is settled, and its winner and its price, in the auction's row and in the winning
-- bid alike, are the user and the amount of the last accepted bid.
pub attempts-schedule :
    (r : Row) (turns : List (ℕ × ℕ)) (from : ℕ) (qs : List Request) (k : Keys) (b : Bid)
    (tries : List (Calls × ℕ))
    → str_eq r.status "ACTIVE" ≡ true
    → InOrder r from turns
    → is_kept r k ≡ true
    → All IsNew qs
    → last (schedule r turns qs k).1 ≡ some b
    → is_empty b.user ≡ false
    → All (InTime r) tries
    → let ended : World = record {
      auction = some r;
      winning_bid = none;
      keys = (schedule r turns qs k).0.0;
    } in
      let w = attempts tries r.end_time ended in
      (All Fails tries × (w ≡ ended)) ⊎ (¬ All Fails tries × Settled r b.user b.amount w)
attempts-schedule r turns from qs k b tries active order kept fresh accepted named in_time =
    let rise = schedule-Rise r turns from qs k order kept fresh in
    let bs = (schedule r turns qs k).1 in
    attempts-Led tries r b.user b.amount _ in_time (record {
      auction_row = refl;
      active = active;
      fresh = refl;
      leads = LastLeads-last r bs b k _ accepted rise.last;
      named = named;
      priced = Rises-last (high r k) bs b accepted rise.rising;
    })

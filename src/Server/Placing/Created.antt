-- ===== src/Server/Placing/Created.antt =====
-- Which requests to bid are answered by 201.
use synora_hackathon.Prelude.{
  ℕ, ◌<◌, ◌≡◌, ◌↔◌, refl, ap, ◌∙◌, Bool, true, Option, none, some, String, arith, Bool-cases,
  Option-cases, inl, inr,
}
use synora_hackathon.Js.Value.{Value}
use synora_hackathon.Api.Base.{Response, post}
use synora_hackathon.Server.Redis.{Keys}
use synora_hackathon.Server.Auction.{
  Row, Found, row, missing, failed, Reply, created, not_biddable, not_found, unavailable, too_low,
  is_biddable, cents,
}
use synora_hackathon.Server.Auction.Prices.{high, is_kept}
use synora_hackathon.Server.Auction.Accepts.{all_through, bid-created_iff}
use synora_hackathon.Server.Auction.Effect.{bid-over}
use synora_hackathon.Server.Bids.{BidInput}
use synora_hackathon.Server.Placing.{
  Table, scan, bid_input, bid_response, on_found, on_input, handle_bid,
}

-- What a request has to meet: a user, a body with a bid, an auction that can be read and bid on, and an amount above
-- its price.
pub record Wins (is_uuid : String → Bool) (queries : Bool) (now : ℕ) (user : Option String)
    (body : Option Value) (table : Table) (store : String → Keys) : Type 0 where
  pub name : String
  pub input : BidInput
  pub found : Row
  pub signed : user ≡ some name
  pub parsed : bid_input is_uuid body ≡ some input
  pub read : scan queries (table input.auction_id) ≡ row found
  pub takes : is_biddable now found ≡ true
  pub above : high found (store input.auction_id) < cents input.amount

created_of :
    (format : ℕ → String) (now : ℕ) (user : String) (b : BidInput) (r : Row) (reply : Reply)
    → (bid_response format now user b r reply).status ≡ 201
    → reply ≡ created
created_of format now user b r not_biddable h = absurd (omega arith)
created_of format now user b r not_found h = absurd (omega arith)
created_of format now user b r unavailable h = absurd (omega arith)
created_of format now user b r (too_low current) h = absurd (omega arith)
created_of format now user b r created h = refl

abbrev AreKept : Bool → Table → (String → Keys) → Type 0
AreKept queries table store =
    (id : String) (r : Row) → scan queries (table id) ≡ row r → is_kept r (store id) ≡ true

on_found-takes :
    (format : ℕ → String) (now : ℕ) (user : String) (b : BidInput) (r : Row) (k : Keys)
    → is_kept r k ≡ true
    → (on_found format all_through now user b (row r) k).1.status ≡ 201
    → (is_biddable now r ≡ true) × (high r k < cents b.amount)
on_found-takes format now user b r k o h =
    let won = created_of format now user b r _ h in
    elim (Bool-cases (is_biddable now r)) [
      | inl takes ↦ (takes, (bid-created_iff now user b.amount r k takes o).0 won)
      | inr over ↦ absurd (ground (arith, bid-over all_through now user b.amount r k over))
    ]

on_found-reads :
    (format : ℕ → String) (now : ℕ) (user : String) (b : BidInput) (found : Found) (k : Keys)
    → (on_found format all_through now user b found k).1.status ≡ 201
    → (r : Row) × (found ≡ row r)
on_found-reads format now user b missing k h = absurd (omega arith)
on_found-reads format now user b failed k h = absurd (omega arith)
on_found-reads format now user b (row r) k h = (r, refl)

module _ (is_uuid : String → Bool) (format : ℕ → String) (queries : Bool) (now : ℕ)
    (body : Option Value) (table : Table) (store : String → Keys)
    (kept : AreKept queries table store) where
  abbrev answered : Option String → Response
  answered user = (handle_bid is_uuid format queries all_through now post user body table store).1

  unsigned : (answered none).status ≡ 401
  unfolding handle_bid
  unsigned = refl

  answered-input :
      (name : String)
      → answered (some name)
        ≡ (on_input format queries all_through now name (bid_input is_uuid body) table store).1
  unfolding handle_bid
  answered-input name = refl

  answered-parsed :
      (name : String) (b : BidInput)
      → bid_input is_uuid body ≡ some b
      → answered (some name)
        ≡ (on_found format all_through now name b
            (scan queries (table b.auction_id))
            (store b.auction_id)).1
  answered-parsed name b h = answered-input name ∙ rw h refl

  answered-unparsed :
      (name : String) → bid_input is_uuid body ≡ none → (answered (some name)).status ≡ 400
  answered-unparsed name h = ap (λ x. x.status) (answered-input name) ∙ rw h refl

  Wins-of :
      (user : Option String)
      → (answered user).status ≡ 201
      → Wins is_uuid queries now user body table store
  Wins-of none h = absurd (omega (arith, unsigned))
  Wins-of (some name) h = elim (Option-cases (bid_input is_uuid body)) [
    | inl unread ↦ absurd (omega (arith, answered-unparsed name unread))
    | inr (b, parsed) ↦
        let wins = rw (answered-parsed name b parsed) at h in
        let (r, read) = on_found-reads format now name b _ _ wins in
        let (takes, above) =
          on_found-takes format now name b r (store b.auction_id) (kept b.auction_id r read)
            (rw read at wins) in
        record {
          name = name;
          input = b;
          found = r;
          signed = refl;
          parsed = parsed;
          read = read;
          takes = takes;
          above = above;
        }
  ]

  of_Wins :
      (user : Option String)
      → Wins is_uuid queries now user body table store
      → (answered user).status ≡ 201
  of_Wins user w =
      let won =
        (bid-created_iff now w.name w.input.amount w.found (store w.input.auction_id) w.takes
            (kept w.input.auction_id w.found w.read)).1
          w.above in
      rw (w.signed, answered-parsed w.name w.input w.parsed, w.read, won) refl

  -- Take a request with POST, at a server whose calls of Redis go through and whose keys outlive the end of
  -- their auctions. It is answered by 201 exactly where it has a user, its body is a bid with an id and an
  -- amount in the form that is asked for, the row of that id can be read and takes bids, and the amount is
  -- above the price.
  pub handle_bid-created_iff :
      (user : Option String)
      → ((answered user).status ≡ 201) ↔ Wins is_uuid queries now user body table store
  handle_bid-created_iff user = (Wins-of user, of_Wins user)

-- ===== src/Server/Placing/Fresh.antt =====
-- The bids on an auction that `createAuction` has made.
use synora_hackathon.Prelude.{
  ℕ, ◌≡◌, refl, ap, sym, Bool, true, false, Option, none, some, String, str_eq, eq_iff, eq_refl,
  arith, Bool-cases, inl, inr,
}
use synora_hackathon.Js.Value.{Value}
use synora_hackathon.Api.Base.{post}
use synora_hackathon.Server.Redis.{Keys}
use synora_hackathon.Server.Auction.{Link}
use synora_hackathon.Server.SignIn.{Texts, decode_struct}
use synora_hackathon.Server.Bids.{BidInput}
use synora_hackathon.Server.Placing.{
  Stored, Table, scan, bid_input, refuse_bid, on_found, on_input, set_keys, handle_bid, made,
  auction_fields, is_new_status, with_texts, insert_auction, with_input, create_auction,
}

-- A row without a price, which cannot be read.
abbrev IsFresh : Option Stored → Type 0
IsFresh o = (x : Stored) × (o ≡ some x) × (x.current_high_price ≡ none)

with_texts-IsFresh :
    (parse : String → Option ℕ) (f : Option Texts) (x : Stored)
    → with_texts parse f ≡ some x
    → x.current_high_price ≡ none
with_texts-IsFresh parse none x h = absurd (ground arith)
with_texts-IsFresh parse (some f) x h = ground arith

insert_auction-IsFresh :
    (inserts : Option String) (x : Stored) (table : Table) (id : String)
    → x.current_high_price ≡ none
    → (insert_auction inserts x table).1 ≡ made id
    → IsFresh ((insert_auction inserts x table).0 id)
insert_auction-IsFresh none x table id h m = absurd (ground arith)
insert_auction-IsFresh (some given) x table id h m =
    let same : given ≡ id = ground arith in (x, rw (← same, eq_refl given) refl, h)

with_input-IsFresh :
    (inserts : Option String) (o : Option Stored) (table : Table) (id : String)
    → ((x : Stored) → o ≡ some x → x.current_high_price ≡ none)
    → (with_input inserts o table).1 ≡ made id
    → IsFresh ((with_input inserts o table).0 id)
with_input-IsFresh inserts none table id h m = absurd (ground arith)
with_input-IsFresh inserts (some x) table id h m = elim (Bool-cases (is_new_status x.status)) [
  | inl good ↦ rw good (insert_auction-IsFresh inserts x table id (h x refl) (rw good at m))
  | inr bad ↦ absurd (ground arith)
]

create_auction-IsFresh :
    (parse : String → Option ℕ) (user inserts : Option String) (body : Option Value) (table : Table)
    (id : String)
    → (create_auction parse user inserts body table).1 ≡ made id
    → IsFresh ((create_auction parse user inserts body table).0 id)
unfolding create_auction
create_auction-IsFresh parse none inserts body table id m = absurd (ground arith)
create_auction-IsFresh parse (some user) inserts body table id m =
    with_input-IsFresh inserts (with_texts parse (decode_struct auction_fields body)) table id
      (λ x e. with_texts-IsFresh parse (decode_struct auction_fields body) x e) m

set_keys-same :
    (id : String) (store : String → Keys) (q : String) → set_keys id (store id) store q ≡ store q
set_keys-same id store q = elim (Bool-cases (str_eq q id)) [
  | inl same ↦ rw same (ap store (sym ((eq_iff q id).0 same)))
  | inr other ↦ rw other refl
]

on_found-fresh :
    (format : ℕ → String) (queries : Bool) (link : Link) (now : ℕ) (user : String) (b : BidInput)
    (o : Option Stored) (k : Keys)
    → IsFresh o
    → on_found format link now user b (scan queries o) k ≡ (k, refuse_bid)
on_found-fresh format false link now user b o k (x, there, fresh) = refl
on_found-fresh format true link now user b o k (x, there, fresh) = rw (there, fresh) refl

handle_bid-input :
    (is_uuid : String → Bool) (format : ℕ → String) (queries : Bool) (link : Link) (now : ℕ)
    (bidder : String) (body : Option Value) (table : Table) (store : String → Keys)
    → handle_bid is_uuid format queries link now post (some bidder) body table store
      ≡ on_input format queries link now bidder (bid_input is_uuid body) table store
unfolding handle_bid
handle_bid-input is_uuid format queries link now bidder body table store = refl

-- Take an auction that `createAuction` has made, and any bid that names it, by any user, at any time, with
-- any calls of the database and of Redis failing. As long as the row is as it was made, the bid is refused
-- by AUCTION_NOT_BIDDABLE, and no key changes: the new row has no current price, which `bid` cannot read.
pub create_auction-refuses_bids :
    (parse : String → Option ℕ) (user inserts : Option String) (body : Option Value) (table : Table)
    (id : String) (is_uuid : String → Bool) (format : ℕ → String) (queries : Bool) (link : Link)
    (now : ℕ) (bidder : String) (bid_body : Option Value) (b : BidInput) (store : String → Keys)
    → (create_auction parse user inserts body table).1 ≡ made id
    → bid_input is_uuid bid_body ≡ some b
    → b.auction_id ≡ id
    → let (table', creation) = create_auction parse user inserts body table in
      let (store', x) =
        handle_bid is_uuid format queries link now post (some bidder) bid_body table' store in
      (x ≡ refuse_bid) × ((q : String) → store' q ≡ store q)
create_auction-refuses_bids parse user inserts body table id is_uuid format queries link now bidder
      bid_body b store m i n =
    let table' = (create_auction parse user inserts body table).0 in
    let fresh : IsFresh (table' b.auction_id) =
      rw n (create_auction-IsFresh parse user inserts body table id m) in
    let refuses =
      on_found-fresh format queries link now bidder b (table' b.auction_id) (store b.auction_id)
        fresh in
    rw (handle_bid-input is_uuid format queries link now bidder bid_body table' store, i, refuses)
      (refl, set_keys-same b.auction_id store)

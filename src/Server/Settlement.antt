-- ===== src/Server/Settlement.antt =====
-- backend/internal/settlement/worker.go, lines 38 to 126: `settle` for one auction, at one time `now` in
-- milliseconds. A call of the database or of Redis that fails has no effect, and a transaction that is
-- not committed leaves the database as it was.
pub mod Winner
pub mod Sale
use synora_hackathon.Prelude.{
  ℕ, ◌+◌, ◌-◌, ◌*◌, Bool, true, false, not, ◌&&◌, Option, none, some, List, [], ◌∷◌, ◌++◌, String,
  str_eq, leb, if◌then◌else◌,
}
use synora_hackathon.Js.Text.{is_empty}
use synora_hackathon.Server.Redis.{Entry, settlement, Keys, get}
use synora_hackathon.Server.Auction.{Row, text_of_key}

-- The row of an auction in the database, its winning bid as user and amount, and its keys.
pub record World : Type 0 where
  pub auction : Option Row
  pub winning_bid : Option (String × String)
  pub keys : Keys

-- Which calls go through, in the order in which `settle` makes them.
pub record Calls : Type 0 where
  pub reads : Bool
  pub begins : Bool
  pub queries : Bool
  pub closes : Bool
  pub inserts : Bool
  pub settles : Bool
  pub commits : Bool
  pub sets_status : Bool
  pub publishes : Bool
  pub deletes : Bool

pub data Outcome : Type 0 where
  done broken : Outcome

-- What the price and the leader come to: a winner, none, or a leader without a price.
pub data Final : Type 0 where
  sold : (price user : String) → Final
  unsold : (price : String) → Final
  orphan : Final

abbrev pub final_of : (price leader : String) → Final
final_of price leader =
    if is_empty price
    then (if is_empty leader then unsold "" else orphan)
    else (if is_empty leader then unsold price else sold price leader)

-- `on conflict do nothing`.
abbrev pub insert_winning : String × String → Option (String × String) → Option (String × String)
insert_winning bid none = some bid
insert_winning bid (some old) = some old

-- The transaction from `status='CLOSED'` to the commit.
abbrev pub write_result : Calls → Final → Row → World → Option World
write_result calls (sold price user) r w =
    if calls.inserts && calls.settles
    then some (record w {
      auction = some (record r { status = "SETTLED"; current_high = price; winner = some user });
      winning_bid = insert_winning (user, price) w.winning_bid;
    })
    else none
write_result calls (unsold price) r w =
    some (record w { auction = some (record r { status = "CLOSED" }) })
write_result calls orphan r w = none

abbrev pub final_news : Final → String × String × Option String
final_news (sold price user) = ("SETTLED", price, some user)
final_news (unsold price) = ("CLOSED", price, none)
final_news orphan = ("CLOSED", "", none)

-- `time.Until(end.Add(24 * time.Hour))`, and an hour where that has come.
abbrev pub status_ttl : ℕ → ℕ → ℕ
status_ttl now end =
    if leb (end + 24 * 60 * 60 * 1000) now
    then 60 * 60 * 1000
    else (end + 24 * 60 * 60 * 1000 - now)

-- What follows the commit.
unfoldable pub announce : Calls → ℕ → ℕ → Final → Keys → Keys × Outcome
announce calls now end final k =
    let (status, price, winner) = final_news final in
    if not calls.sets_status
    then (k, broken)
    else (let marked = record k {
      status = some (record { text = status; ends = some (now + status_ttl now end) });
    } in
        if not calls.publishes
        then (marked, broken)
        else (let told = record marked {
          updates = k.updates ++ settlement status price winner ∷ [];
        } in
            if not calls.deletes
            then (told, broken)
            else (record told { price = none; leader = none }, done)))

unfoldable pub settle_active : Calls → ℕ → ℕ → Final → Row → World → World × Outcome
unfolding announce
settle_active calls now end final r w = elim (write_result calls final r w) [
  | none ↦ (w, broken)
  | some w' ↦
      if not calls.commits
      then (w, broken)
      else (let (k, outcome) = announce calls now end final w.keys in
          (record w' { keys = k }, outcome))
]

unfoldable pub settle : Calls → ℕ → ℕ → World → World × Outcome
unfolding settle_active
settle calls now end w =
    if not (calls.reads && calls.begins && calls.queries) then (w, broken) else elim w.auction [
      | none ↦ (w, done)
      | some r ↦
          if not (str_eq r.status "ACTIVE")
          then (w, done)
          else if not calls.closes
          then (w, broken)
          else settle_active calls now end
              (final_of (text_of_key (get now w.keys.price)) (text_of_key (get now w.keys.leader)))
              r w
    ]

-- The scans that reach the auction, each with its calls and its time.
unfoldable pub attempts : List (Calls × ℕ) → ℕ → World → World
unfolding settle
attempts [] end w = w
attempts ((calls, now) ∷ tries) end w = attempts tries end (settle calls now end w).0

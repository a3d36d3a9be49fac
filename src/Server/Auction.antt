-- ===== src/Server/Auction.antt =====
-- backend/internal/handlers/handlers.go, lines 617 to 690: `bid` behind its checks of the user and the
-- body, and the script of `evalBid`, at one time `now` in milliseconds. A call of Redis that fails has
-- no effect. Lua's `tonumber` on an amount is its number of cents, which orders the texts alike.
pub mod Prices
pub mod Effect
pub mod Rise
pub mod Accepts
pub mod Requests
use synora_hackathon.Prelude.{
  ℕ, ◌+◌, ◌-◌, ◌*◌, ◌/◌, Bool, true, false, not, ◌||◌, ◌&&◌, code, Option, none, some, List, [],
  ◌∷◌, ◌++◌, String, str_eq, leb, ltb, ◌==◌, if◌then◌else◌,
}
use synora_hackathon.Js.Text.{is_digit, is_empty}
use synora_hackathon.Server.Redis.{Entry, price_update, Keys, get, set_nx, until}

-- The columns of an auction that `bid` and the settlement worker use.
pub record Row : Type 0 where
  pub status : String
  pub start_time : ℕ
  pub end_time : ℕ
  pub starting_price : String
  pub current_high : String
  pub winner : Option String

-- What the query comes to.
pub data Found : Type 0 where
  missing failed : Found
  row : Row → Found

-- Which of the three calls of Redis go through.
pub record Link : Type 0 where
  pub sets_price : Bool
  pub sets_status : Bool
  pub evals : Bool

pub data Verdict : Type 0 where
  closed : Verdict
  low : (current : String) → Verdict
  won : Verdict

pub data Reply : Type 0 where
  not_biddable not_found unavailable : Reply
  too_low : (current : String) → Reply
  created : Reply

-- The digits of an amount, as one number: its cents.
abbrev pub add_digit : ℕ → ℕ → ℕ
add_digit total c = if is_digit c then total * 10 + (c - b'0') else total

unfoldable pub cents_from : ℕ → String → ℕ
cents_from total String.[] = total
cents_from total (String.◌∷◌ c s) = cents_from (add_digit total (code c)) s

unfoldable pub cents : String → ℕ
unfolding cents_from
cents amount = cents_from 0 amount

-- `p and tonumber(ARGV[1]) <= tonumber(p)`.
abbrev pub is_low : String → Option String → Bool
is_low amount none = false
is_low amount (some p) = leb (cents amount) (cents p)

abbrev pub text_of_key : Option String → String
text_of_key none = ""
text_of_key (some t) = t

abbrev pub is_active : Option String → Bool
is_active none = false
is_active (some t) = str_eq t "ACTIVE"

-- The script: the new keys and what it returns.
unfoldable pub eval_bid : ℕ → (ends : ℕ) → String → String → Keys → Keys × Verdict
unfolding cents
eval_bid now ends amount user k =
    if not (is_active (get now k.status))
    then (k, closed)
    else if is_low amount (get now k.price)
    then (k, low (text_of_key (get now k.price)))
    else (
      record k {
        price = some (record { text = amount; ends = some ends });
        leader = some (record { text = user; ends = some ends });
        updates = k.updates ++ price_update amount ∷ [];
      },
      won,
    )

-- `status != "ACTIVE" || time.Now().Before(start) || time.Now().After(end)`.
abbrev pub is_biddable : ℕ → Row → Bool
is_biddable now r =
    str_eq r.status "ACTIVE" && not (ltb now r.start_time) && not (ltb r.end_time now)

-- The seconds that a price is kept: until a day after the end, and at least one.
abbrev pub ttl_seconds : ℕ → ℕ → ℕ
ttl_seconds now end_time =
    let n = (end_time + 24 * 60 * 60 * 1000 - now) / 1000 in if n == 0 then 1 else n

abbrev pub reply_of : (amount : String) → Verdict → Reply
reply_of amount closed = too_low "CLOSED"
reply_of amount (low current) = too_low (if is_empty current then amount else current)
reply_of amount won = created

-- `bid` from the first call of Redis on, with its second look at the row.
unfoldable pub bid_on : Link → ℕ → String → String → Row → Keys → Keys × Reply
unfolding eval_bid
bid_on link now user amount r k =
    if not link.sets_price
    then (k, unavailable)
    else (let seeded = record k { price = set_nx now r.starting_price k.price } in
        if not link.sets_status
        then (seeded, unavailable)
        else (let active = record seeded {
          status = some (record { text = "ACTIVE"; ends = until now r.end_time });
        } in
            if not (is_biddable now r)
            then (active, not_biddable)
            else if not link.evals
            then (active, unavailable)
            else (let (k', verdict) =
                  eval_bid now (now + ttl_seconds now r.end_time * 1000) amount user active in
                (k', reply_of amount verdict))))

-- `bid`, from the query on.
unfoldable pub bid : Link → ℕ → String → String → Found → Keys → Keys × Reply
unfolding bid_on
bid link now user amount missing k = (k, not_found)
bid link now user amount failed k = (k, not_biddable)
bid link now user amount (row r) k =
    if is_biddable now r then bid_on link now user amount r k else (k, not_biddable)

-- A request to bid, with the calls of Redis that go through for it.
pub record Bid : Type 0 where
  pub link : Link
  pub user : String
  pub amount : String

abbrev pub is_created : Reply → Bool
is_created created = true
is_created _ = false

-- ===== src/Terminal/Screen.antt =====
-- frontend/src/AuctionTerminal.jsx, lines 33 to 97: the state of the terminal and its handlers.
-- `new Date(v).getTime()` is the argument `get_time`, `NaN` where the date is not valid.
use Prim.Native.String.{◌++◌}
use synora_hackathon.Prelude.{
  ℕ, ◌/◌, ◌%◌, suc, zero, Bool, true, false, not, ◌&&◌, String, ltb, if◌then◌else◌,
}
use synora_hackathon.Js.Number.{Num, nan, pos, negsuc, sub, max_zero, is_truthy, is_same}
use synora_hackathon.Js.Text.{is_empty, pad_start}
use synora_hackathon.Js.Decimal.{decimal, num_of_text}
use synora_hackathon.Js.Value.{Value, str, truthy, member, strict_eq, text_of}
use synora_hackathon.Api.Base.{Error, Result, ok, err, Network}
use synora_hackathon.Api.Request
use synora_hackathon.Auth.Describe.{has_status}
use synora_hackathon.Terminal.Tape.{Filter, all}

pub record Screen : Type 0 where
  pub amount : String
  pub current_bid : String
  pub remaining : Num  -- milliseconds
  pub deadline : Num
  pub filter : Filter
  pub paused : Bool
  pub message : String
  pub load_error : String
  pub show_payment : Bool
  pub auction_closed : Bool
  pub mounted : Bool

abbrev pub initial : Screen
initial = record {
  amount = "4296500";
  current_bid = "4296000";
  remaining = pos 0;
  deadline = pos 0;
  filter = all;
  paused = false;
  message = "";
  load_error = "";
  show_payment = false;
  auction_closed = false;
  mounted = true;
}

-- `Math.max(0, (deadline - Date.now()) / 1000)`, in milliseconds.
abbrev pub time_left : ℕ → Num → Num
time_left now deadline = max_zero (sub deadline (pos now))

module _ (get_time : Value → Num) where
  abbrev set_price : Value → Screen → Screen
  set_price price s = if truthy price then record s { current_bid = text_of price } else s

  abbrev set_end : ℕ → Value → Screen → Screen
  set_end now end_time s =
      if truthy end_time
      then record s { deadline = get_time end_time; remaining = time_left now (get_time end_time) }
      else s

  -- The price and the end of the auction, from the request or from the stream.
  unfoldable pub take_news : ℕ → Value → Screen → Screen
  take_news now news s =
      set_end now (member "end_time" news) (set_price (member "current_high_price" news) s)

  -- The answer of `getAuction`.
  unfoldable pub on_auction : ℕ → Result Value → Screen → Screen
  unfolding take_news
  on_auction now (ok auction) s = if s.mounted then take_news now auction s else s
  on_auction now (err e) s = if s.mounted then record s { load_error = e.message } else s

  -- A price update: only that of this auction counts.
  unfoldable pub on_update : (auction_id : String) → ℕ → Value → Screen → Screen
  unfolding take_news
  on_update auction_id now update s =
      if strict_eq (member "auction_id" update) (str auction_id) then take_news now update s else s

unfoldable pub on_stream_error : Error → Screen → Screen
on_stream_error e s = if s.mounted then record s { load_error = e.message } else s

unfoldable pub leave : Screen → Screen
leave s = record s { mounted = false }

abbrev closing : Screen → Bool
closing s = is_same s.remaining (pos 0) && not s.auction_closed && not (is_empty s.current_bid)

-- The timer, ten times a second while there is a deadline.
unfoldable pub tick : ℕ → Screen → Screen
tick now s =
    let s' = record s { remaining = time_left now s.deadline } in
    if not (is_truthy s.deadline)
    then s
    else if closing s'
    then record s' { auction_closed = true; show_payment = true }
    else s'

-- The groups of three digits of `toLocaleString('en-US')`.
group : ℕ → ℕ → String
group zero n = decimal n
group (suc fuel) n =
    let rest = group fuel (n / 1000) ++ ("," ++ pad_start 3 "0" (decimal (n % 1000))) in
    if ltb n 1000 then decimal n else rest

unfoldable pub grouped : Num → String
unfolding group decimal pad_start
grouped nan = "NaN"
grouped (pos n) = group n n
grouped (negsuc n) = "-" ++ group (suc n) (suc n)

-- `submitBid` up to the request: the flag says that the bid is sent.
unfoldable pub begin_bid : Value → Screen → Screen × Bool
begin_bid token s =
    if truthy token
    then (s, true)
    else (record s { message = "AUTH REQUIRED / SIGN IN TO BID" }, false)

abbrev pub bid_error : Error → String
bid_error e = (if has_status 409 e then "STALE / OUTBID" else "REJECTED") ++ (" / " ++ e.message)

-- `submitBid` from the answer on; `amount` is the one that was sent.
unfoldable pub finish_bid : String → Result Value → Screen → Screen
unfolding grouped num_of_text has_status
finish_bid amount (ok v) s = record s {
  current_bid = amount;
  message = "ACCEPTED / " ++ (grouped (num_of_text amount) ++ " / SERIALIZATION QUEUE");
}
finish_bid amount (err e) s = record s { message = bid_error e }

-- `submitBid` with nothing in between.
unfoldable pub submit_bid : Network → (auction_id : String) → Value → Screen → Screen
unfolding begin_bid finish_bid Request.place_bid
submit_bid net auction_id token s =
    let (s', sent) = begin_bid token s in
    if sent then finish_bid s.amount (Request.place_bid net auction_id s.amount token) s' else s'

-- ===== src/Terminal/Bidding.antt =====
-- The terminal after a submitted bid.
use Prim.Native.String.{◌++◌}
use synora_hackathon.Prelude.{◌≡◌, none, some, String, arith, ◌==◌, if◌then◌else◌}
use synora_hackathon.Js.Value.{Value, truthy}
use synora_hackathon.Js.Decimal.{num_of_text}
use synora_hackathon.Api.Base.{Response, is_ok, Fetched, unreachable, response, Network}
use synora_hackathon.Api.Request.{parsed_or_empty, response_error, bid_request}
use synora_hackathon.Terminal.Screen.{Screen, grouped, submit_bid}

-- The message that a refusal shows: outbid is told apart by the status 409.
abbrev pub refusal_message : Response → String
refusal_message x =
    (if x.status == 409 then "STALE / OUTBID" else "REJECTED")
    ++ (" / " ++ (response_error x (parsed_or_empty x.body) "Bid was rejected").message)

-- The screen after the server's answer.
abbrev pub after_bid : Fetched → Screen → Screen
after_bid (unreachable e) s = record s {
  message =
      (elim e.status [
        | none ↦ "REJECTED"
        | some n ↦ if n == 409 then "STALE / OUTBID" else "REJECTED"
      ])
      ++ (" / " ++ e.message);
}
after_bid (response x) s =
    if is_ok x
    then record s {
      current_bid = s.amount;
      message = "ACCEPTED / " ++ (grouped (num_of_text s.amount) ++ " / SERIALIZATION QUEUE");
    }
    else record s { message = refusal_message x }

-- With a token, the bid goes to the server, and the shown price becomes the bid's amount only if the
-- server answers with success; else the price stays and the message has the server's words, with
-- "STALE / OUTBID" for a 409. Without a token nothing is sent and only the message changes.
pub submit_bid-outcome :
    (net : Network) (auction_id : String) (token : Value) (s : Screen)
    → submit_bid net auction_id token s ≡ (
        if truthy token
        then after_bid (net (bid_request auction_id s.amount token)) s
        else record s { message = "AUTH REQUIRED / SIGN IN TO BID" })
unfolding submit_bid
submit_bid-outcome net auction_id token s = ground arith

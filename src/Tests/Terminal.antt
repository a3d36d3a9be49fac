-- ===== src/Tests/Terminal.antt =====
-- The auction terminal at small inputs.
use Prim.Native.String.{◌++◌}
use synora_hackathon.Prelude.{
  arith, ℕ, ◌+◌, ◌*◌, ◌≤◌, ◌≡◌, refl, ◌↔◌, Bool, true, false, none, List, [], ◌∷◌,
}
use synora_hackathon.Js.Number.{nan, pos, le, is_truthy}
use synora_hackathon.Js.Text.{is_empty}
use synora_hackathon.Js.Value.{str, member, num_of}
use synora_hackathon.Js.Decimal.{decimal, num_of_text}
use synora_hackathon.Api.Base.{Network, response}
use synora_hackathon.Api.Request.{bid_request}
use synora_hackathon.Terminal.Screen.{Screen, initial, tick, submit_bid}
use synora_hackathon.Terminal.Clock.{clock_parts, clock}
use synora_hackathon.Terminal.Clock.Laws.{clock_parts_near}
use synora_hackathon.Terminal.Amount.{change, Change, typed, quick, changes}
use synora_hackathon.Js.Double.{fixed_2, fixed_beyond}
use synora_hackathon.Terminal.Amount.Laws.{bid_request-changes}
use synora_hackathon.Terminal.Tape.{Row}
use synora_hackathon.Terminal.Machine.{Event, ticked, payment_closed, run}
use synora_hackathon.Terminal.Machine.Closing.{tick-opens_iff, run_closed}

abbrev up : ℕ → Bool
up r = true

countdown :
    (clock up (pos 65240) ≡ "01:05.2")
    × (clock up (pos 0) ≡ "00:00.0")
    × (clock up (pos 59990) ≡ "00:60.0")
    × (clock up nan ≡ "NaN:0NaN")
unfolding clock
countdown = (refl, refl, refl, refl)

clock_parts_near_example :
    let (m, t) = clock_parts up 65240 in
    (65240 ≤ m * 60000 + t * 100 + 50) × (m * 60000 + t * 100 ≤ 65240 + 50)
clock_parts_near_example = clock_parts_near up 65240

abbrev some_changes : List Change
some_changes = typed "12a3" ∷ quick 500 ∷ []

edits : changes some_changes "4296500" ≡ "623"
unfolding changes
edits = refl

bid_request-changes_example :
    (n : ℕ) × (num_of_text (changes some_changes "4296500") ≡ pos n)
    × (member "amount" (bid_request "108" (changes some_changes "4296500") (str "t")).body
        ≡ str (decimal n ++ ".00"))
unfolding num_of_text change
bid_request-changes_example =
    bid_request-changes some_changes "4296500" "108" (str "t")
      (refl, (refl, (refl, (refl, (refl, (refl, (refl, tt)))))))
      (omega arith, (omega arith, omega arith))

-- From 2^53 on an amount is rounded, and from 10^21 on it is no amount for the server.
rounded :
    (fixed_2 9007199254740993 ≡ "9007199254740992.00")
    × (fixed_2 9007199254740995 ≡ "9007199254740996.00")
    × (fixed_2 1000000000000000000000 ≡ "1e+21")
    × (fixed_2 9999999999999999999999 ≡ "1e+22")
    × (fixed_2 123456789012345678901234 ≡ "1.2345678901234569e+23")
unfolding fixed_2 fixed_beyond
rounded = (refl, refl, refl, refl, refl)

abbrev row : Row
row = record {
  sequence = "#35557";
  status = "STALE_LOWER";
  amount = "$4,295,500";
  client = "Node_0x2C";
  region = "Frankfurt";
  latency = "1.4ms / 3ms";
  note = "";
}

abbrev ending : Screen
ending = record initial { deadline = pos 1000 }

tick-opens_iff_example : ((tick 1000 ending).show_payment ≡ true) ↔ (
    (is_truthy ending.deadline ≡ true)
    × (le ending.deadline (pos 1000) ≡ true)
    × (ending.auction_closed ≡ false)
    × (is_empty ending.current_bid ≡ false))
tick-opens_iff_example = tick-opens_iff 1000 ending refl

opens_at_the_end :
    ((tick 999 ending).show_payment ≡ false) × ((tick 1000 ending).show_payment ≡ true)
unfolding tick
opens_at_the_end = (refl, refl)

abbrev dismissed : Screen
dismissed = record ending { auction_closed = true }

abbrev later_events : List (ℕ × Event)
later_events = (2000, ticked) ∷ (2100, payment_closed) ∷ []

run_closed_example :
    ((run num_of "108" later_events dismissed).auction_closed ≡ true)
    × ((run num_of "108" later_events dismissed).show_payment ≡ false)
run_closed_example = run_closed num_of "108" later_events dismissed refl refl

abbrev outbid : Network
outbid r = response (record { status = 409; body = none; retry_header = none })

outbid_message :
    (submit_bid outbid "108" (str "t") initial).message ≡ "STALE / OUTBID / Bid was rejected"
unfolding submit_bid member
outbid_message = refl

-- ===== src/Tests/Checkout.antt =====
-- The terminal with its payment dialog at small runs.
use synora_hackathon.Prelude.{ℕ, ◌≡◌, refl, inr, true, false, List, [], ◌∷◌, ◌++◌}
use synora_hackathon.Js.Number.{Num, pos}
use synora_hackathon.Js.Value.{member, Value, obj, str, field, end}
use synora_hackathon.Api.Base.{ok}
use synora_hackathon.Terminal.Machine.{loaded, ticked}
use synora_hackathon.Terminal.Screen.{tick, on_auction}
use synora_hackathon.Terminal.Payment.{pay, backdrop, elapsed}
use synora_hackathon.Terminal.Checkout.{
  apply, Checkout, Event, page, dialog, entered, opened_checkout, run,
}
use synora_hackathon.Terminal.Checkout.Dismissed.{run_dismissed}

abbrev get_time : Value → Num
get_time v = pos 0

-- The auction has ended in front of the visitor.
abbrev past : Value → Num
past v = pos 1

abbrev over : Checkout
over = record opened_checkout {
  screen = record opened_checkout.screen { auction_closed = true; show_payment = true };
  dialog = record opened_checkout.dialog { is_open = true };
}

abbrev later : List (ℕ × Event)
later = (10, dialog pay) ∷ (20, dialog elapsed) ∷ []

-- The page is loaded again, and so is the auction, which has ended.
abbrev ended : Value
ended = obj (field "end_time" (str "2026-01-01T00:00:00Z") end)

abbrev once_more : List (ℕ × Event)
once_more = (30, entered) ∷ (40, page (loaded (ok ended))) ∷ (50, page ticked) ∷ []

asked_again :
    (run past "a1" ((0, dialog backdrop) ∷ (later ++ once_more)) over).dialog.is_open ≡ true
unfolding run apply tick on_auction member
asked_again = refl

run_dismissed_example :
    let c' = run get_time "a1" ((0, dialog backdrop) ∷ later) over in
    (c'.dialog.is_open ≡ false) × (c'.dialog.is_processing ≡ false)
run_dismissed_example =
    run_dismissed get_time "a1" 0 backdrop later over refl refl refl (inr refl) (tt, (tt, tt))

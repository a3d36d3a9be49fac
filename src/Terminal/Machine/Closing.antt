-- ===== src/Terminal/Machine/Closing.antt =====
-- When the terminal declares the auction closed and asks for payment.
use synora_hackathon.Prelude.{ℕ, ◌≡◌, ◌↔◌, true, false, List, [], ◌∷◌, String, arith}
use synora_hackathon.Js.Number.{Num, pos, le, is_truthy}
use synora_hackathon.Js.Text.{is_empty}
use synora_hackathon.Js.Value.{Value}
use synora_hackathon.Terminal.Screen.{
  Screen, on_auction, on_update, on_stream_error, leave, tick, begin_bid, finish_bid,
}
use synora_hackathon.Terminal.Machine.{Event, ticked, apply, run}

-- A tick opens the payment dialog exactly when there is a deadline, it has passed, the terminal has
-- not closed before and there is a current bid; it needs neither a token nor a bid of the visitor.
pub tick-opens_iff :
    (now : ℕ) (s : Screen)
    → s.show_payment ≡ false
    → ((tick now s).show_payment ≡ true) ↔ (
        (is_truthy s.deadline ≡ true)
        × (le s.deadline (pos now) ≡ true)
        × (s.auction_closed ≡ false)
        × (is_empty s.current_bid ≡ false))
unfolding tick
tick-opens_iff now s h = ground arith

module _ (get_time : Value → Num) (auction_id : String) where
  pub apply_closed :
      (now : ℕ) (e : Event) (s : Screen)
      → s.auction_closed ≡ true
      → s.show_payment ≡ false
      → ((apply get_time auction_id now e s).auction_closed ≡ true)
        × ((apply get_time auction_id now e s).show_payment ≡ false)
  unfolding apply on_auction on_update on_stream_error leave tick begin_bid finish_bid
  apply_closed now ticked s c p = ground arith
  apply_closed now e s c p = ground arith

  -- Once the terminal has closed and the dialog is dismissed, the dialog never opens again, also
  -- where the auction's end is moved and passes a second time.
  pub run_closed :
      (es : List (ℕ × Event)) (s : Screen)
      → s.auction_closed ≡ true
      → s.show_payment ≡ false
      → ((run get_time auction_id es s).auction_closed ≡ true)
        × ((run get_time auction_id es s).show_payment ≡ false)
  unfolding run
  run_closed [] s c p = (c, p)
  run_closed ((now, e) ∷ es) s c p =
      let (c', p') = apply_closed now e s c p in
      run_closed es (apply get_time auction_id now e s) c' p'

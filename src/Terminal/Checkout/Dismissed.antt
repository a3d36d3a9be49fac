-- ===== src/Terminal/Checkout/Dismissed.antt =====
-- The payment of a visitor who has dismissed the dialog.
use synora_hackathon.Prelude.{ℕ, ◌≡◌, ◌⊎◌, inl, inr, true, false, List, [], ◌∷◌, String, arith, All}
use synora_hackathon.Js.Number.{Num}
use synora_hackathon.Js.Value.{Value}
use synora_hackathon.Terminal.Machine
use synora_hackathon.Terminal.Machine.Closing.{apply_closed}
use synora_hackathon.Terminal.Payment
use synora_hackathon.Terminal.Payment.{finish_payment}
use synora_hackathon.Terminal.Checkout.{Checkout, Event, page, dialog, entered, apply, run}

-- The visitor stays on the page.
abbrev pub IsOnPage : ℕ × Event → Type 0
IsOnPage (now, entered) = ⊥
IsOnPage _ = Unit

-- The auction is over for this visitor: the dialog is closed, and no payment is under way.
pub record IsDismissed (c : Checkout) : Type 0 where
  pub closed : c.screen.auction_closed ≡ true
  pub hidden : c.screen.show_payment ≡ false
  pub not_open : c.dialog.is_open ≡ false
  pub idle : c.dialog.is_processing ≡ false

module _ (get_time : Value → Num) (auction_id : String) where
  apply-IsDismissed :
      (now : ℕ) (e : Event) (c : Checkout)
      → IsOnPage (now, e)
      → IsDismissed c
      → IsDismissed (apply get_time auction_id now e c)
  unfolding apply Payment.apply Payment.finish_payment Machine.apply
  apply-IsDismissed now (page e) c on h =
      let (over, hidden) = apply_closed get_time auction_id now e c.screen h.closed h.hidden in
      record { closed = over; hidden = hidden; not_open = hidden; idle = h.idle }
  apply-IsDismissed now (dialog e) c on h = ground arith
  apply-IsDismissed now entered c on h = elim on [ ]

  run-IsDismissed :
      (es : List (ℕ × Event)) (c : Checkout)
      → All IsOnPage es
      → IsDismissed c
      → IsDismissed (run get_time auction_id es c)
  unfolding run
  run-IsDismissed [] c on h = h
  run-IsDismissed ((now, e) ∷ es) c (on, ons) h =
      run-IsDismissed es (apply get_time auction_id now e c) ons (apply-IsDismissed now e c on h)

  dismissing :
      (now : ℕ) (click : Payment.Event) (c : Checkout)
      → c.screen.auction_closed ≡ true
      → c.dialog.is_open ≡ true
      → c.dialog.is_processing ≡ false
      → (click ≡ Payment.cancel) ⊎ (click ≡ Payment.backdrop)
      → IsDismissed (apply get_time auction_id now (dialog click) c)
  unfolding apply Payment.apply Machine.apply
  dismissing now click c over shown idle (inl e) = rw e (ground arith)
  dismissing now click c over shown idle (inr e) = rw e (ground arith)

  -- A visitor who closes the dialog of an auction that is over, by its button or by a click beside it
  -- while nothing is being paid, cannot pay as long as the page is neither loaded again nor left and
  -- entered again: whatever else happens, the dialog stays closed and no payment begins.
  pub run_dismissed :
      (now : ℕ) (click : Payment.Event) (es : List (ℕ × Event)) (c : Checkout)
      → c.screen.auction_closed ≡ true
      → c.dialog.is_open ≡ true
      → c.dialog.is_processing ≡ false
      → (click ≡ Payment.cancel) ⊎ (click ≡ Payment.backdrop)
      → All IsOnPage es
      → let c' = run get_time auction_id ((now, dialog click) ∷ es) c in
        (c'.dialog.is_open ≡ false) × (c'.dialog.is_processing ≡ false)
  unfolding run
  run_dismissed now click es c over shown idle which on =
      let c' = apply get_time auction_id now (dialog click) c in
      let kept = run-IsDismissed es c' on (dismissing now click c over shown idle which) in
      (kept.not_open, kept.idle)

-- ===== src/Terminal/Checkout.antt =====
-- frontend/src/AuctionTerminal.jsx, lines 123 to 128: the terminal with its payment dialog, which is
-- open while `showPaymentModal` is set and sets it back by `onClose`.
pub mod Dismissed
use synora_hackathon.Prelude.{ℕ, Bool, List, [], ◌∷◌, String, if◌then◌else◌}
use synora_hackathon.Js.Number.{Num}
use synora_hackathon.Js.Value.{Value}
use synora_hackathon.Terminal.Screen.{Screen, initial}
use synora_hackathon.Terminal.Machine
use synora_hackathon.Terminal.Machine.{payment_closed}
use synora_hackathon.Terminal.Payment
use synora_hackathon.Terminal.Payment.{Dialog, closed_dialog}

pub record Checkout : Type 0 where
  pub screen : Screen
  pub dialog : Dialog

abbrev pub opened_checkout : Checkout
opened_checkout = record { screen = initial; dialog = closed_dialog }

-- An event of the terminal, or one of the dialog; or the page is loaded again, or left and entered again,
-- which begins with new states of both.
pub data Event : Type 0 where
  page : Machine.Event → Event
  dialog : Payment.Event → Event
  entered : Event

module _ (get_time : Value → Num) (auction_id : String) where
  -- The dialog's `isOpen` is what the terminal has after the event.
  abbrev shown : Screen → Dialog → Checkout
  shown s d = record { screen = s; dialog = record d { is_open = s.show_payment } }

  -- A dialog that its own event leaves closed has called `onClose`.
  abbrev told : ℕ → Screen → Dialog → Checkout
  told now s d =
      if d.is_open
      then shown s d
      else shown (Machine.apply get_time auction_id now payment_closed s) d

  unfoldable pub apply : ℕ → Event → Checkout → Checkout
  unfolding Machine.apply Payment.apply
  apply now (page e) c = shown (Machine.apply get_time auction_id now e c.screen) c.dialog
  apply now (dialog Payment.opens) c = c
  apply now (dialog e) c = told now c.screen (Payment.apply e c.dialog)
  apply now entered c = opened_checkout

  unfoldable pub run : List (ℕ × Event) → Checkout → Checkout
  run [] c = c
  run ((now, e) ∷ es) c = run es (apply now e c)

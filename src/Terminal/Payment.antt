-- ===== src/Terminal/Payment.antt =====
-- frontend/src/PaymentModal.jsx: the payment dialog of the terminal, as a machine. Its state outlives
-- its closing, since the terminal renders it all the time. How it writes the amount is left out.
pub mod Laws
use synora_hackathon.Prelude.{
  ℕ, zero, suc, Bool, true, false, not, ◌&&◌, List, [], ◌∷◌, if◌then◌else◌,
}

pub data PaymentMethod : Type 0 where
  upi card bank : PaymentMethod

-- `isOpen` is the terminal's `showPaymentModal`; `waiting` counts the payments whose two seconds are
-- not over.
pub record Dialog : Type 0 where
  pub is_open : Bool
  pub payment_method : PaymentMethod
  pub is_processing : Bool
  pub waiting : ℕ

-- The dialog as the terminal first renders it.
abbrev pub closed_dialog : Dialog
closed_dialog = record { is_open = false; payment_method = upi; is_processing = false; waiting = 0 }

pub data Event : Type 0 where
  opens : Event  -- the terminal sets `showPaymentModal`
  choose : PaymentMethod → Event
  pay cancel backdrop : Event
  elapsed : Event  -- the two seconds of a payment are over

-- The part of `handlePayment` behind its await.
unfoldable pub finish_payment : Dialog → Dialog
finish_payment d = elim d.waiting [
  | zero ↦ d
  | suc n ↦ record d { is_processing = false; is_open = false; waiting = n }
]

-- A closed dialog renders nothing, and while a payment is under way its two buttons are disabled.
unfoldable pub apply : Event → Dialog → Dialog
unfolding finish_payment
apply opens d = record d { is_open = true }
apply (choose m) d = if d.is_open then record d { payment_method = m } else d
apply pay d =
    if d.is_open && not d.is_processing
    then record d { is_processing = true; waiting = suc d.waiting }
    else d
apply cancel d = if d.is_open && not d.is_processing then record d { is_open = false } else d
apply backdrop d = if d.is_open then record d { is_open = false } else d
apply elapsed d = finish_payment d

unfoldable pub run : List Event → Dialog → Dialog
run [] d = d
run (e ∷ es) d = run es (apply e d)

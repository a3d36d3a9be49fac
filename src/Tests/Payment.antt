-- ===== src/Tests/Payment.antt =====
-- The payment dialog at small runs.
use synora_hackathon.Prelude.{◌≡◌, refl, true, List, [], ◌∷◌}
use synora_hackathon.Terminal.Payment.{
  Dialog, Event, closed_dialog, opens, pay, cancel, backdrop, apply, run,
}

abbrev clicks : List Event
clicks = opens ∷ pay ∷ backdrop ∷ opens ∷ pay ∷ cancel ∷ []

abbrev paying : Dialog
paying = record closed_dialog { is_open = true; is_processing = true; waiting = 1 }

-- The second click on "Pay" does nothing, and the dialog is still open.
one_payment : ((run clicks closed_dialog).waiting ≡ 1) × ((run clicks closed_dialog).is_open ≡ true)
unfolding run apply
one_payment = (refl, refl)

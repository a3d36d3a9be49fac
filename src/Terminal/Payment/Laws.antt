-- ===== src/Terminal/Payment/Laws.antt =====
-- Payments do not overlap, and each ends.
use synora_hackathon.Prelude.{◌≡◌, true, false, List, [], ◌∷◌, arith, All, if◌then◌else◌}
use synora_hackathon.Terminal.Payment.{Dialog, Event, elapsed, finish_payment, apply, run}

-- One wait while a payment is under way, and none else.
abbrev pub IsSound : Dialog → Type 0
IsSound d = d.waiting ≡ (if d.is_processing then 1 else 0)

apply-IsSound : (e : Event) (d : Dialog) → IsSound d → IsSound (apply e d)
unfolding apply finish_payment
apply-IsSound e d h = ground arith

-- Whatever the visitor does, at most one payment is under way, and the dialog says that it is
-- processing exactly while one is.
pub run-IsSound : (es : List Event) (d : Dialog) → IsSound d → IsSound (run es d)
unfolding run
run-IsSound [] d h = h
run-IsSound (e ∷ es) d h = run-IsSound es (apply e d) (apply-IsSound e d h)

abbrev pub NotElapsed : Event → Type 0
NotElapsed elapsed = ⊥
NotElapsed _ = Unit

apply-processing :
    (e : Event) (d : Dialog)
    → NotElapsed e
    → IsSound d
    → d.is_processing ≡ true
    → ((apply e d).waiting ≡ 1) × ((apply e d).is_processing ≡ true)
unfolding apply
apply-processing elapsed d q h p = absurd q
apply-processing e d q h p = ground arith

-- A payment that is under way goes on whatever the visitor does, also when the dialog is closed by a
-- click beside it and opened again; at the end of its two seconds the dialog is closed and free.
pub run-payment_ends :
    (es : List Event) (d : Dialog)
    → All NotElapsed es
    → d.waiting ≡ 1
    → d.is_processing ≡ true
    → let d' = apply elapsed (run es d) in
      ((run es d).is_processing ≡ true)
      × (d'.is_open ≡ false)
      × (d'.is_processing ≡ false)
      × (d'.waiting ≡ 0)
unfolding run apply finish_payment
run-payment_ends [] d q w p = ground arith
run-payment_ends (e ∷ es) d (q, qs) w p =
    let (w', p') = apply-processing e d q (ground arith) p in
    run-payment_ends es (apply e d) qs w' p'

-- ===== src/Auth/Mount/Button.antt =====
-- Google's button, when the visitor goes to the registration form and back.
use synora_hackathon.Prelude.{ℕ, ◌<◌, ◌≡◌, true, false, some, List, [], ◌∷◌, arith, All}
use synora_hackathon.Auth.Screen.{register, switch_mode}
use synora_hackathon.Auth.Login.{Keys}
use synora_hackathon.Auth.Machine
use synora_hackathon.Auth.Machine.{google_script, switch}
use synora_hackathon.Auth.Mount.{Mounted, apply, run, has_google_button}

-- The script's answer comes once.
abbrev pub NotScript : ℕ × Machine.Event → Type 0
NotScript (now, google_script cancelled loaded) = ⊥
NotScript (now, e) = Unit

-- The button is in a form that is gone.
abbrev IsLost : Mounted → Type 0
IsLost p = (k : ℕ) × (p.google_host ≡ some k) × (k < p.form)

module _ (keys : Keys) where
  apply-IsLost :
      (now : ℕ) (e : Machine.Event) (p : Mounted)
      → NotScript (now, e)
      → IsLost p
      → IsLost (apply keys now e p)
  unfolding apply
  apply-IsLost now (google_script cancelled loaded) p q h = absurd q
  apply-IsLost now e p q (k, h, l) = (k, ground arith, ground arith)

  run-IsLost :
      (es : List (ℕ × Machine.Event)) (p : Mounted)
      → All NotScript es
      → IsLost p
      → IsLost (run keys es p)
  unfolding run
  run-IsLost [] p q h = h
  run-IsLost ((now, e) ∷ es) p (q, qs) h =
      run-IsLost es (apply keys now e p) qs (apply-IsLost now e p q h)

  IsLost-button : (p : Mounted) → IsLost p → has_google_button p ≡ false
  unfolding has_google_button
  IsLost-button p (k, h, l) = ground arith

  -- Once the visitor has gone from a form with Google's button to the registration form, the button
  -- is never there again, also back on the form for signing in.
  pub switch-button :
      (now : ℕ) (es : List (ℕ × Machine.Event)) (p : Mounted)
      → has_google_button p ≡ true
      → All NotScript es
      → has_google_button (run keys ((now, switch register) ∷ es) p) ≡ false
  unfolding run apply Machine.apply switch_mode has_google_button
  switch-button now es p h q =
      let gone = apply keys now (switch register) p in
      IsLost-button (run keys es gone) (run-IsLost es gone q (p.form, ground arith, ground arith))

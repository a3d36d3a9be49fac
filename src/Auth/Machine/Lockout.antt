-- ===== src/Auth/Machine/Lockout.antt =====
-- The lockout of the sign-in screen: what starts it, and what it holds back.
use synora_hackathon.Prelude.{ℕ, ◌<◌, ◌≡◌, false, none, List, [], ◌∷◌, arith, All}
use synora_hackathon.Js.Number.{pos}
use synora_hackathon.Api.Base.{ok, err}
use synora_hackathon.Api.Session.{is_complete}
use synora_hackathon.Auth.Screen.{switch_mode, expire_toast, tick_lockout}
use synora_hackathon.Auth.Login.{Keys, begin_login, handle_register}
use synora_hackathon.Auth.Captcha.{
  start_turnstile, finish_turnstile, on_verified, on_expired, on_timed_out, on_captcha_error,
  unmount_turnstile,
}
use synora_hackathon.Auth.Google.{
  start_google, finish_google, begin_google_login, finish_google_login, on_google_error,
  unmount_google,
}
use synora_hackathon.Auth.Machine.{Machine, Event, submit, answer, google_answer, apply, run}

-- An event before the end of a lockout that is no successful sign-in with Google.
abbrev pub IsQuiet : ℕ → ℕ × Event → Type 0
IsQuiet ends (now, submit rendered form) = (now < ends) × (rendered < ends)
IsQuiet ends (now, google_answer (ok result)) = (now < ends) × (is_complete result ≡ false)
IsQuiet ends (now, e) = now < ends

abbrev HasLock : ℕ → Machine → Type 0
HasLock ends m = (m.screen.lockout_ends ≡ pos ends) × (m.pending ≡ none)

apply-HasLock :
    (keys : Keys) (ends now : ℕ) (e : Event) (m : Machine)
    → HasLock ends m
    → IsQuiet ends (now, e)
    → HasLock ends (apply keys now e m)
unfolding apply begin_login handle_register switch_mode expire_toast tick_lockout start_turnstile
    finish_turnstile on_verified on_expired on_timed_out on_captcha_error unmount_turnstile
    start_google finish_google begin_google_login finish_google_login on_google_error unmount_google
apply-HasLock keys ends now (submit rendered form) m h q = ground arith
apply-HasLock keys ends now (answer r) m h q = ground arith
apply-HasLock keys ends now (google_answer (ok result)) m h q = ground arith
apply-HasLock keys ends now (google_answer (err e)) m h q = ground arith
apply-HasLock keys ends now e m h q = ground arith

-- Until a lockout ends, no event but a successful sign-in with Google lifts it, and no form is sent:
-- nothing is pending after any sequence of events that begins with nothing pending.
pub run-HasLock :
    (keys : Keys) (ends : ℕ) (es : List (ℕ × Event)) (m : Machine)
    → m.screen.lockout_ends ≡ pos ends
    → m.pending ≡ none
    → All (IsQuiet ends) es
    → ((run keys es m).screen.lockout_ends ≡ pos ends) × ((run keys es m).pending ≡ none)
unfolding run
run-HasLock keys ends [] m l p q = (l, p)
run-HasLock keys ends ((now, e) ∷ es) m l p (q, qs) =
    let (l', p') = apply-HasLock keys ends now e m (l, p) q in
    run-HasLock keys ends es (apply keys now e m) l' p' qs

-- ===== src/Auth/Machine/Sync.antt =====
-- The counters of the sign-in screen against those in localStorage.
use synora_hackathon.Prelude.{
  ℕ, ◌+◌, ◌≡◌, refl, Option, none, some, List, [], ◌∷◌, String, arith, ◌∙◌, if◌then◌else◌,
}
use synora_hackathon.Js.Number.{Num, pos, add}
use synora_hackathon.Js.Value.{Value}
use synora_hackathon.Js.Decimal.{decimal, num_of_text, text_of_num}
use synora_hackathon.Js.Decimal.RoundTrip.{num_of_text-decimal, num_of_text-text_of_num}
use synora_hackathon.Api.Base.{Result, ok, err}
use synora_hackathon.Auth.Screen.{
  Screen, Local, stored_number, is_stale, lockout_duration, open_screen, switch_mode, expire_toast,
  tick_lockout,
}
use synora_hackathon.Auth.Login.{Keys, Form, begin_login, finish_login, handle_register}
use synora_hackathon.Auth.Captcha.{
  start_turnstile, finish_turnstile, on_verified, on_expired, on_timed_out, on_captcha_error,
  unmount_turnstile,
}
use synora_hackathon.Auth.Google.{
  start_google, finish_google, begin_google_login, finish_google_login, on_google_error,
  unmount_google,
}
use synora_hackathon.Auth.Machine.{Machine, Event, submit, answer, answered, apply, run, opened}

pub record InSync (s : Screen) : Type 0 where
  pub attempts_stored : s.attempts ≡ stored_number s.local.failed_attempts
  pub lockout_stored : s.lockout_ends ≡ stored_number s.local.lockout_ends

-- An empty text reads as 0 either way.
stored_number-some : (t : String) → stored_number (some t) ≡ num_of_text t
stored_number-some String.[] = unfold num_of_text in refl
stored_number-some (String.◌∷◌ c t) = refl

stored_number-text_of_num : (n : Num) → stored_number (some (text_of_num n)) ≡ n
stored_number-text_of_num n = stored_number-some (text_of_num n) ∙ num_of_text-text_of_num n

stored_number-decimal : (n : ℕ) → stored_number (some (decimal n)) ≡ pos n
stored_number-decimal n = stored_number-some (decimal n) ∙ num_of_text-decimal n

begin_login-InSync :
    (keys : Keys) (rendered now : ℕ) (form : Form) (s : Screen)
    → InSync s
    → InSync (begin_login keys rendered now form s).0
unfolding begin_login
begin_login-InSync keys rendered now form s h =
    ground (arith, stored_number-text_of_num (pos (now + lockout_duration)))

finish_login-InSync :
    (now : ℕ) (attempts : Num) (r : Result Value) (s : Screen)
    → InSync s
    → InSync (finish_login now attempts r s)
unfolding finish_login
finish_login-InSync now attempts (ok result) s h = ground arith
finish_login-InSync now attempts (err e) s h = ground (
  arith,
  stored_number-text_of_num (pos (now + lockout_duration)),
  stored_number-text_of_num (add attempts (pos 1)),
)

answered-InSync :
    (now : ℕ) (r : Result Value) (p : Option Num) (m : Machine)
    → InSync m.screen
    → InSync (answered now r p m).screen
answered-InSync now r none m h = h
answered-InSync now r (some attempts) m h = finish_login-InSync now attempts r m.screen h

open_screen-InSync : (now : ℕ) (l : Local) → InSync (open_screen now l)
unfolding open_screen
open_screen-InSync now l = ground arith

apply-InSync :
    (keys : Keys) (now : ℕ) (e : Event) (m : Machine)
    → InSync m.screen
    → InSync (apply keys now e m).screen
unfolding apply handle_register switch_mode expire_toast tick_lockout start_turnstile
    finish_turnstile on_verified on_expired on_timed_out on_captcha_error unmount_turnstile
    start_google finish_google begin_google_login finish_google_login on_google_error unmount_google
apply-InSync keys now (submit rendered form) m h =
    begin_login-InSync keys rendered now form m.screen h
apply-InSync keys now (answer r) m h = answered-InSync now r m.pending m h
apply-InSync keys now e m h = ground arith

pub run-InSync :
    (keys : Keys) (es : List (ℕ × Event)) (m : Machine)
    → InSync m.screen
    → InSync (run keys es m).screen
unfolding run
run-InSync keys [] m h = h
run-InSync keys ((now, e) ∷ es) m h =
    run-InSync keys es (apply keys now e m) (apply-InSync keys now e m h)

-- Whatever happens on a screen, opening it again from localStorage gives its lockout and, unless
-- the last failed attempt is more than fifteen minutes old, its number of attempts.
pub reopen_keeps_counters :
    (keys : Keys) (opened_at reopened_at : ℕ) (l : Local) (es : List (ℕ × Event))
    → let s = (run keys es (opened opened_at l)).screen in
      let s' = open_screen reopened_at s.local in
      (s'.lockout_ends ≡ s.lockout_ends)
      × (s'.attempts
          ≡ (if is_stale reopened_at s.local.attempts_timestamp then pos 0 else s.attempts))
unfolding open_screen
reopen_keeps_counters keys opened_at reopened_at l es =
    ground (arith, run-InSync keys es (opened opened_at l) (open_screen-InSync opened_at l))

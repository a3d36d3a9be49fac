-- ===== src/Auth/Machine/Guesses.antt =====
-- Guessing a password: rounds of a solved CAPTCHA, a sent form and a wrong answer.
use synora_hackathon.Prelude.{
  ℕ, ◌+◌, ◌<◌, ◌≡◌, ap, true, false, none, List, [], ◌∷◌, ◌++◌, String, arith, length,
}
use mathlib.Core.Path.{subst}
use synora_hackathon.Js.Number.{pos}
use synora_hackathon.Js.Text.{is_empty}
use synora_hackathon.Api.Base.{err, Error}
use synora_hackathon.Auth.Screen.{Screen, clear_feedback}
use synora_hackathon.Auth.Validate.{validate_email, validate_password}
use synora_hackathon.Auth.Login.{Keys, Form, trimmed, text_or_empty, finish_login}
use synora_hackathon.Auth.Captcha.{on_verified}
use synora_hackathon.Auth.Machine.{Machine, Event, submit, answer, verified, apply, run}
use synora_hackathon.Auth.Machine.Attempts.{
  counts, Passes, MaySend, begin_login-MaySend, finish_login_failed, finish_login-google,
}

-- A round of guessing: the CAPTCHA is solved, the form is sent and the answer is `e`.
abbrev pub guess : String → Form → Error → ℕ → List (ℕ × Event) → List (ℕ × Event)
guess token form e now rest =
    (now, verified token) ∷ (now, submit now form) ∷ (now, answer (err e)) ∷ rest

abbrev pub guesses : String → Form → Error → List ℕ → List (ℕ × Event)
guesses token form e [] = []
guesses token form e (now ∷ ts) = guess token form e now (guesses token form e ts)

-- A form that can be sent, after `k` counted attempts and with no lockout.
pub record IsFree (k : ℕ) (m : Machine) : Type 0 where
  pub counted : m.screen.attempts ≡ pos k
  pub no_lockout : m.screen.lockout_ends ≡ pos 0
  pub form_idle : m.screen.submitting ≡ false
  pub google_idle : m.screen.google_submitting ≡ false
  pub none_pending : m.pending ≡ none

module _ (keys : Keys) (token : String) (form : Form) (e : Error) where
  -- What makes the round count.
  pub record IsGuess : Type 0 where
    pub email_given : is_empty (trimmed form.email) ≡ false
    pub email_valid : validate_email (trimmed form.email) ≡ true
    pub password_valid : validate_password (text_or_empty form.password) ≡ true
    pub key_set : is_empty keys.site_key ≡ false
    pub token_given : is_empty token ≡ false
    pub wrong : counts e ≡ true

  module _ (g : IsGuess) where
    verified-Passes : (s : Screen) → Passes keys form (on_verified token s)
    unfolding on_verified
    verified-Passes s = ground arith

    -- The screen that is sent, and the one that the answer leaves.
    abbrev sent_screen : Screen → Screen
    sent_screen s = clear_feedback (record (on_verified token s) { submitting = true })

    abbrev guessed : ℕ → ℕ → Machine → Machine
    guessed k now m = record m {
      screen = finish_login now (pos k) (err e) (sent_screen m.screen);
      pending = none;
    }

    verified-MaySend :
        (k now : ℕ) (m : Machine)
        → IsFree k m
        → k < 5
        → MaySend keys now form (on_verified token m.screen)
    unfolding on_verified
    verified-MaySend k now m f l = record {
      unlocked = ground arith;
      idle = ground arith;
      passes = verified-Passes m.screen;
      attempts_left = ground arith;
    }

    apply-guess :
        (k now : ℕ) (m : Machine)
        → IsFree k m
        → k < 5
        → apply keys now
            (answer (err e))
            (apply keys now (submit now form) (apply keys now (verified token) m))
          ≡ guessed k now m
    unfolding apply on_verified
    apply-guess k now m f l =
        rw (begin_login-MaySend keys now now form _ (verified-MaySend k now m f l), apply) (cc)

    run-guess :
        (k now : ℕ) (rest : List (ℕ × Event)) (m : Machine)
        → IsFree k m
        → k < 5
        → run keys (guess token form e now rest) m ≡ run keys rest (guessed k now m)
    unfolding run
    run-guess k now rest m f l = ap (run keys rest) (apply-guess k now m f l)

    guessed-IsFree :
        (k now : ℕ) (m : Machine) → IsFree k m → k < 4 → IsFree (k + 1) (guessed k now m)
    unfolding clear_feedback on_verified
    guessed-IsFree k now m f l = ground (
      arith,
      finish_login_failed now k e (sent_screen m.screen),
      finish_login-google now k e (sent_screen m.screen),
    )

    -- The fifth round.
    guessed-lockout :
        (now : ℕ) (m : Machine)
        → IsFree 4 m
        → ((guessed 4 now m).screen.attempts ≡ pos 5)
          × ((guessed 4 now m).screen.lockout_ends ≡ pos (now + 300000))
          × ((guessed 4 now m).pending ≡ none)
    guessed-lockout now m f = ground (arith, finish_login_failed now 4 e (sent_screen m.screen))

    run-guess_last :
        (k now : ℕ) (m : Machine)
        → IsFree k m
        → k ≡ 4
        → let m' = run keys (guess token form e now []) m in
          (m'.screen.attempts ≡ pos 5)
          × (m'.screen.lockout_ends ≡ pos (now + 300000))
          × (m'.pending ≡ none)
    unfolding run
    run-guess_last k now m f l =
        rw (apply-guess k now m f (omega arith))
          (rw l (guessed-lockout now m (subst (λ j. IsFree j m) l f)))

    -- On a free form with `k` wrong sign-ins counted, rounds of a solved CAPTCHA, a form that
    -- passes the checks and an answer that says only that the credentials are wrong: when they
    -- bring the count to five, the last round locks the form for five minutes, whatever the times
    -- of the rounds.
    pub run-guesses :
        (k : ℕ) (ts : List ℕ) (last : ℕ) (m : Machine)
        → IsFree k m
        → k + length ts ≡ 4
        → let m' = run keys (guesses token form e (ts ++ last ∷ [])) m in
          (m'.screen.attempts ≡ pos 5)
          × (m'.screen.lockout_ends ≡ pos (last + 300000))
          × (m'.pending ≡ none)
    run-guesses k [] last m f l = run-guess_last k last m f (omega arith)
    run-guesses k (now ∷ ts) last m f l =
        rw (run-guess k now (guesses token form e (ts ++ last ∷ [])) m f (omega arith)) (
          run-guesses (k + 1) ts last (guessed k now m) (guessed-IsFree k now m f (omega arith))
            (omega arith))

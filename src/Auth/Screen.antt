-- ===== src/Auth/Screen.antt =====
-- The state of frontend/src/AuthScreen.jsx: React's state variables, the browser's localStorage and
-- the calls that leave the program, with the helpers that the handlers share.
use synora_hackathon.Prelude.{
  ℕ, ◌*◌, Bool, true, false, not, ◌&&◌, ◌||◌, Option, none, some, List, [], ◌∷◌, String,
  if◌then◌else◌,
}
use synora_hackathon.Js.Number.{Num, pos, sub, lt, le}
use synora_hackathon.Js.Text.{is_empty}
use synora_hackathon.Js.Decimal.{num_of_text}
use synora_hackathon.Js.Value.{Value}
use synora_hackathon.Api.Session.{is_complete}

pub data Mode : Type 0 where
  login register : Mode

pub data ToastType : Type 0 where
  error success info : ToastType

-- The three entries of localStorage: auctoz_failed_attempts, auctoz_attempts_timestamp and
-- auctoz_lockout_ends.
pub record Local : Type 0 where
  pub failed_attempts : Option String
  pub attempts_timestamp : Option String
  pub lockout_ends : Option String

-- What the screen asks of others: `turnstile.reset`, `turnstile.remove`, and `navigate` after a delay.
pub data Call : Type 0 where
  reset_widget : String → Call
  remove_widget : String → Call
  navigate_after : ℕ → String → Call

pub record Screen : Type 0 where
  pub mode : Mode
  pub show_password : Bool
  pub show_confirm : Bool
  pub attempts : Num
  pub lockout_ends : Num
  pub turnstile_token : String
  pub password : String
  pub notice : String
  pub toast : String
  pub toast_type : ToastType
  pub submitting : Bool
  pub google_submitting : Bool
  pub captcha_ready : Bool
  pub captcha_loading : Bool
  pub google_ready : Bool
  pub google_loading : Bool
  pub widget : Option String
  pub local : Local
  pub calls : List Call

abbrev pub max_attempts : ℕ
max_attempts = 5

abbrev pub lockout_duration : ℕ
lockout_duration = 5 * 60 * 1000

-- `Number(stored || 0)`.
abbrev pub stored_number : Option String → Num
stored_number none = pos 0
stored_number (some text) = if is_empty text then pos 0 else num_of_text text

-- More than fifteen minutes have passed since the last failed attempt.
abbrev pub is_stale : ℕ → Option String → Bool
is_stale now none = false
is_stale now (some text) =
    not (is_empty text) && lt (pos (15 * 60 * 1000)) (sub (pos now) (num_of_text text))

-- The initial value of `attempts`, and the entries that its initialiser leaves.
unfoldable pub initial_attempts : ℕ → Local → Num × Local
unfolding num_of_text
initial_attempts now l =
    if is_stale now l.attempts_timestamp
    then (pos 0, record l { failed_attempts = none; attempts_timestamp = none })
    else (stored_number l.failed_attempts, l)

-- The screen as it is first rendered.
unfoldable pub open_screen : ℕ → Local → Screen
unfolding initial_attempts num_of_text
open_screen now l =
    let (attempts, l') = initial_attempts now l in
    record {
      mode = login;
      show_password = false;
      show_confirm = false;
      attempts = attempts;
      lockout_ends = stored_number l'.lockout_ends;
      turnstile_token = "";
      password = "";
      notice = "";
      toast = "";
      toast_type = error;
      submitting = false;
      google_submitting = false;
      captcha_ready = false;
      captcha_loading = false;
      google_ready = false;
      google_loading = false;
      widget = none;
      local = l';
      calls = [];
    }

-- `lockoutEnds > Date.now()`, at the time of a render.
abbrev pub is_locked : ℕ → Screen → Bool
is_locked now s = lt (pos now) s.lockout_ends

abbrev pub is_busy : Screen → Bool
is_busy s = s.submitting || s.google_submitting

unfoldable pub show_feedback : String → Bool → ToastType → Screen → Screen
show_feedback message as_toast type s =
    if as_toast
    then record s { notice = message; toast = message; toast_type = type }
    else record s { notice = message }

unfoldable pub clear_feedback : Screen → Screen
clear_feedback s = record s { notice = ""; toast = ""; toast_type = error }

-- `hasTurnstileWidget`.
abbrev pub has_turnstile_widget : Option String → Bool
has_turnstile_widget none = false
has_turnstile_widget (some id) = not (is_empty id)

-- The calls after `f(widget)`, made if there is a widget.
abbrev pub call_widget : (String → Call) → Option String → List Call → List Call
call_widget f none calls = calls
call_widget f (some id) calls = if is_empty id then calls else f id ∷ calls

unfoldable pub reset_turnstile : Screen → Screen
reset_turnstile s = record s {
  turnstile_token = "";
  captcha_ready = false;
  calls = call_widget reset_widget s.widget s.calls;
}

abbrev pub no_entries : Local
no_entries = record { failed_attempts = none; attempts_timestamp = none; lockout_ends = none }

-- `completeLogin`.
unfoldable pub complete_login : Value → Screen → Screen × Bool
unfolding show_feedback
complete_login result s =
    if is_complete result
    then (
      show_feedback "Authentication successful! Redirecting..." true success (record s {
        attempts = pos 0;
        lockout_ends = pos 0;
        local = no_entries;
        calls = navigate_after 1000 "/assets/108" ∷ s.calls;
      }),
      true,
    )
    else (
      show_feedback
          "Authentication succeeded but the session could not be stored. Please try again." true
          error s,
      false,
    )

unfoldable pub switch_mode : Mode → Screen → Screen
unfolding clear_feedback reset_turnstile
switch_mode next s = reset_turnstile (clear_feedback (record s { mode = next }))

-- The toast's timer: how long it stays, and what the timer does.
abbrev pub toast_delay : ToastType → ℕ
toast_delay success = 3000
toast_delay _ = 5000

unfoldable pub expire_toast : Screen → Screen
expire_toast s = record s { toast = ""; toast_type = error }

-- The lockout's timer, once a second while `lockoutEnds` is set.
unfoldable pub tick_lockout : ℕ → Screen → Screen
tick_lockout now s =
    if le s.lockout_ends (pos now)
    then record s { lockout_ends = pos 0; attempts = pos 0; local = no_entries }
    else s

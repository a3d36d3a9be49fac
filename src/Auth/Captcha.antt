-- ===== src/Auth/Captcha.antt =====
-- frontend/src/AuthScreen.jsx, lines 177 to 282: the CAPTCHA widget, from its mounting to its removal.
-- Cloudflare's script is the argument `Loaded`, and its callbacks are functions on the screen.
use Prim.Native.String.{[], ◌∷◌}
use synora_hackathon.Prelude.{
  ℕ, Bool, true, false, not, ◌&&◌, ◌||◌, code, none, some, String, leb, ◌==◌, if◌then◌else◌,
}
use synora_hackathon.Js.Text.{length, is_empty, is_digit, is_upper, is_lower}
use synora_hackathon.Auth.Screen.{Screen, error, info, remove_widget, call_widget, show_feedback}

-- `[a-zA-Z0-9_-]`.
abbrev pub is_key_char : ℕ → Bool
is_key_char c = is_lower c || is_upper c || is_digit c || c == b'_' || c == b'-'

abbrev pub all_key_chars : String → Bool
all_key_chars [] = true
all_key_chars (c ∷ s) = is_key_char (code c) && all_key_chars s

-- /^[a-zA-Z0-9_-]{32,}$/.
abbrev pub is_site_key : String → Bool
is_site_key key = all_key_chars key && leb 32 (length key)

-- `mountTurnstile` up to `loadScript`; the flag says that the script is asked for.
unfoldable pub start_turnstile : (site_key : String) (host : Bool) → Screen → Screen × Bool
unfolding show_feedback
start_turnstile site_key host s =
    if is_empty site_key
    then (
      show_feedback
          "CAPTCHA is not configured. Please set VITE_TURNSTILE_SITE_KEY in your environment variables."
          true info s,
      false,
    )
    else if not host
    then (s, false)
    else if not (is_site_key site_key)
    then (
      record (show_feedback
          "Invalid CAPTCHA configuration. The site key format is incorrect. Expected 32+ alphanumeric characters."
          true error s) { captcha_loading = false },
      false,
    )
    else (record s { captcha_loading = true }, true)

-- What became of the script: it failed to load, it loaded without `window.turnstile`, or `render`
-- gave a widget or threw.
pub data Loaded : Type 0 where
  failed absent render_threw : Loaded
  rendered : String → Loaded

abbrev tell : Bool → String → Bool → Screen → Screen
tell cancelled message as_toast s = if cancelled then s else show_feedback message as_toast error s

abbrev turnstile_failed : Bool → Screen → Screen
turnstile_failed cancelled s =
    tell cancelled "CAPTCHA failed to load. Please check your network connection and try again."
      true (record s { captcha_ready = false; captcha_loading = false })

abbrev turnstile_missing : Bool → Screen → Screen
turnstile_missing cancelled s =
    tell cancelled
      "CAPTCHA failed to load. The Cloudflare Turnstile library may be blocked or unavailable." true
      (record s { captcha_loading = false })

-- The old widget goes, and no token is held.
abbrev unverified : Screen → Screen
unverified s = record s {
  captcha_ready = false;
  turnstile_token = "";
  calls = call_widget remove_widget s.widget s.calls;
}

-- `mountTurnstile` from the script's answer on.
unfoldable pub finish_turnstile : (cancelled : Bool) (host : Bool) → Loaded → Screen → Screen
unfolding show_feedback
finish_turnstile cancelled host failed s = turnstile_failed cancelled s
finish_turnstile cancelled host absent s = turnstile_missing cancelled s
finish_turnstile cancelled host render_threw s =
    if cancelled || not host
    then turnstile_missing cancelled s
    else turnstile_failed cancelled (unverified s)
finish_turnstile cancelled host (rendered id) s =
    if cancelled || not host
    then turnstile_missing cancelled s
    else record (unverified s) { widget = some id }

-- The widget's callbacks.
unfoldable pub on_verified : String → Screen → Screen
on_verified token s = record s {
  turnstile_token = token;
  captcha_ready = true;
  captcha_loading = false;
}

unfoldable pub on_expired : Screen → Screen
unfolding show_feedback
on_expired s =
    show_feedback "CAPTCHA expired. Please complete verification again." false info
      (record s { turnstile_token = ""; captcha_ready = false })

unfoldable pub on_timed_out : Screen → Screen
unfolding show_feedback
on_timed_out s =
    show_feedback "CAPTCHA timed out. Please complete verification again." false info
      (record s { turnstile_token = ""; captcha_ready = false })

unfoldable pub on_captcha_error : (cancelled : Bool) → Screen → Screen
unfolding show_feedback
on_captcha_error cancelled s =
    tell cancelled "CAPTCHA verification failed. Please try again." false
      (record s { turnstile_token = ""; captcha_ready = false; captcha_loading = false })

-- The effect's clean-up.
unfoldable pub unmount_turnstile : Screen → Screen
unmount_turnstile s = record s {
  calls = call_widget remove_widget s.widget s.calls;
  widget = none;
  captcha_ready = false;
  captcha_loading = false;
}

-- `captchaBlocking`: whether the widget holds the submit button back.
abbrev pub captcha_blocking : String → Screen → Bool
captcha_blocking site_key s =
    not (is_empty site_key)
    && (not s.captcha_ready || is_empty s.turnstile_token || s.captcha_loading)

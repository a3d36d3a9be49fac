-- ===== src/Auth/Google.antt =====
-- frontend/src/AuthScreen.jsx, lines 284 to 415: signing in with Google. Google's script is the
-- argument `Initialised`; its two callbacks are functions on the screen.
pub mod Laws
use synora_hackathon.Prelude.{
  ℕ, Bool, true, false, not, ◌&&◌, ◌||◌, Option, none, some, String, ltb, if◌then◌else◌,
}
use synora_hackathon.Js.Text.{length, is_empty, includes}
use synora_hackathon.Js.Value.{Value, str, truthy, member, strict_eq}
use synora_hackathon.Api.Base.{Error, coded_error, Result, ok, err, Store, Writer, Network}
use synora_hackathon.Api.Request
use synora_hackathon.Auth.Screen.{Screen, error, show_feedback, clear_feedback, complete_login}
use synora_hackathon.Auth.Describe.{describe_auth_error}

abbrev pub is_client_id : String → Bool
is_client_id id = not (ltb (length id) 10) && includes id "googleusercontent"

-- `mountGoogle` up to `loadScript`; the flag says that the script is asked for.
unfoldable pub start_google : (client_id : String) → Screen → Screen × Bool
unfolding show_feedback includes
start_google client_id s =
    if is_empty client_id
    then (record s { google_ready = false; google_loading = false }, false)
    else if not (is_client_id client_id)
    then (
      show_feedback "Google Sign-In is misconfigured. Invalid client ID format." true error
          (record s { google_loading = false }),
      false,
    )
    else (record s { google_loading = true }, true)

-- What became of the script: it failed to load (or `initialize` threw), it loaded without
-- `google.accounts.id`, it has no host for its button, or the button was drawn or not.
pub data Initialised : Type 0 where
  failed absent no_host drawn not_drawn : Initialised

abbrev tell : Bool → String → Screen → Screen
tell cancelled message s = if cancelled then s else show_feedback message true error s

abbrev google_missing : Bool → Screen → Screen
google_missing cancelled s =
    tell cancelled
      "Google Sign-In failed to load. The Google Identity Services library may be blocked or unavailable."
      (record s { google_loading = false })

abbrev google_mounted : Screen → Screen
google_mounted s = record s { google_ready = true; google_loading = false }

-- `mountGoogle` from the script's answer on. A script that loads into a screen that is gone is
-- treated as missing.
unfoldable pub finish_google : (cancelled : Bool) → Initialised → Screen → Screen
unfolding show_feedback
finish_google cancelled failed s =
    tell cancelled
      "Google Sign-In failed to load. Please check your network connection and ensure popups are allowed."
      (record s { google_ready = false; google_loading = false })
finish_google cancelled absent s = google_missing cancelled s
finish_google cancelled no_host s = if cancelled then google_missing true s else google_mounted s
finish_google cancelled drawn s = if cancelled then google_missing true s else google_mounted s
finish_google cancelled not_drawn s =
    if cancelled
    then google_missing true s
    else google_mounted (
        show_feedback "Google Sign-In button failed to render. Please refresh the page." true error
          s)

abbrev pub google_missing_credential : Error
google_missing_credential =
    coded_error "Google did not return a credential. The authentication flow was interrupted."
      "MISSING_GOOGLE_CREDENTIAL"

abbrev pub google_invalid_credential : Error
google_invalid_credential =
    coded_error "Invalid Google credential received. The token format is incorrect."
      "INVALID_GOOGLE_CREDENTIAL"

-- `typeof credential !== 'string' || credential.length < 50`, turned round.
abbrev pub is_credential : Value → Bool
is_credential (str s) = not (ltb (length s) 50)
is_credential _ = false

-- The checks before `loginWithGoogle`.
abbrev pub check_credential : Value → Result Value
check_credential credential =
    if not (truthy credential)
    then err google_missing_credential
    else if not (is_credential credential)
    then err google_invalid_credential
    else ok credential

-- The end of the callback, `finally` included.
unfoldable pub finish_google_login : Result Value → Screen → Screen
unfolding complete_login show_feedback describe_auth_error
finish_google_login (ok result) s = record (complete_login result s).0 { google_submitting = false }
finish_google_login (err e) s = record (show_feedback (describe_auth_error e) true error s) {
  google_submitting = false;
}

-- The beginning of the callback: what stays of the screen, and the credential to send, if any.
unfoldable pub begin_google_login : Value → Screen → Screen × Option Value
unfolding clear_feedback finish_google_login
begin_google_login response s =
    let s' = clear_feedback (record s { google_submitting = true }) in
    elim (check_credential (member "credential" response)) [
      | ok credential ↦ (s', some credential)
      | err e ↦ (finish_google_login (err e) s', none)
    ]

-- The call of `loginWithGoogle`, if there is a credential, and what follows it.
abbrev pub finish_callback :
    Network → Writer → (later : ℕ) → Store → Screen × Option Value → Screen × Store
finish_callback net write later store (s, none) = (s, store)
finish_callback net write later store (s, some credential) =
    let (store', r) = Request.login_with_google net write later credential store in
    (finish_google_login r s, store')

-- The callback with nothing in between.
unfoldable pub google_callback :
    Network → Writer → (later : ℕ) → Value → Screen × Store → Screen × Store
unfolding begin_google_login finish_google_login
google_callback net write later response (s, store) =
    finish_callback net write later store (begin_google_login response s)

abbrev popup_message : Value → String
popup_message e = elim (member "message" e) [ str s ↦ s | _ ↦ "" ]

-- `error_callback`, on an error whose message, if any, is a text.
unfoldable pub on_google_error : (cancelled : Bool) → Value → Screen → Screen
unfolding show_feedback includes
on_google_error cancelled e s =
    tell cancelled
      (if includes (popup_message e) "popup" || includes (popup_message e) "Popup"
        then "Google Sign-In popup was blocked. Please allow popups for this site in your browser settings and try again."
        else if strict_eq (member "code" e) (str "popup_closed")
        then "Google Sign-In was cancelled. Please try again."
        else "Google Sign-In initialization failed. Please check your browser settings and try again.")
      s

-- The effect's clean-up.
unfoldable pub unmount_google : Screen → Screen
unmount_google s = record s { google_loading = false }

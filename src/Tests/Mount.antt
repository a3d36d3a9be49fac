-- ===== src/Tests/Mount.antt =====
-- Google's button at small runs.
use synora_hackathon.Prelude.{ℕ, ◌≡◌, refl, true, false, none, List, [], ◌∷◌}
use synora_hackathon.Auth.Screen.{login, register, Local, open_screen}
use synora_hackathon.Auth.Login.{Keys}
use synora_hackathon.Auth.Google.{drawn, finish_google}
use synora_hackathon.Auth.Machine
use synora_hackathon.Auth.Machine.{google_script, switch}
use synora_hackathon.Auth.Mount.{Mounted, first_render, apply, run, has_google_button}
use synora_hackathon.Auth.Mount.Button.{switch-button}

abbrev keys : Keys
keys = record { site_key = "0xAAA"; client_id = "1.apps.googleusercontent.com" }

abbrev fresh : Local
fresh = record { failed_attempts = none; attempts_timestamp = none; lockout_ends = none }

abbrev with_button : Mounted
with_button = run keys ((10, google_script false drawn) ∷ []) (first_render keys 0 fresh)

-- There and back.
abbrev back : List (ℕ × Machine.Event)
back = (30, switch login) ∷ []

with_button_shows : has_google_button with_button ≡ true
unfolding run apply first_render has_google_button open_screen finish_google
with_button_shows = refl

switch-button_example :
    has_google_button (run keys ((20, switch register) ∷ back) with_button) ≡ false
switch-button_example = switch-button keys 20 back with_button with_button_shows (tt, tt)

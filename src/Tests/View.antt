-- ===== src/Tests/View.antt =====
-- The rendered sign-in screen at small inputs.
use synora_hackathon.Prelude.{ℕ, ◌≡◌, refl, ◌↔◌, true, false, none, some, List, [], ◌∷◌, arith}
use synora_hackathon.Js.Number.{pos}
use synora_hackathon.Js.Text.{trim, any}
use synora_hackathon.Auth.Screen.{Screen, no_entries, open_screen, register}
use synora_hackathon.Auth.Validate.{validate_email, validate_password, password_score}
use synora_hackathon.Auth.Login.{Keys, Form, trimmed, text_or_empty, begin_login}
use synora_hackathon.Auth.LockClock.{lockout_clock}
use synora_hackathon.Auth.Machine.{Machine, Event, submit, verified, tick, run}
use synora_hackathon.Auth.Machine.Attempts.{sent}
use synora_hackathon.Auth.View.{render}
use synora_hackathon.Auth.View.Login.{lockout_card, submit_button, login_footer, login_form}
use synora_hackathon.Auth.View.Register.{strength}
use synora_hackathon.Auth.View.Submit.{IsFilled, submit_button_iff, run-locked_form}

abbrev keys : Keys
keys = record { site_key = "0x4AAAAAAAB"; client_id = "" }

abbrev form : Form
form = record {
  email = some "a@b.c";
  password = some "password";
  confirm_password = none;
  terms = none;
}

form-IsFilled : IsFilled form
unfolding trim trimmed validate_email validate_password text_or_empty
form-IsFilled = record { has_email = refl; valid_email = refl; valid_password = refl }

abbrev solved : Screen
solved = record (open_screen 0 no_entries) { captcha_ready = true; turnstile_token = "ok" }

submit_button_iff_example :
    (login_footer keys 5 solved ≡ submit_button false false "ACCESS TERMINAL")
    ↔ ((begin_login keys 5 6 form solved).1 ≡ some (sent form solved))
unfolding open_screen
submit_button_iff_example = submit_button_iff keys 5 6 form solved refl refl refl form-IsFilled

-- The button is there.
enabled : login_footer keys 5 solved ≡ submit_button false false "ACCESS TERMINAL"
unfolding login_footer open_screen
enabled = refl

abbrev locked : Machine
locked = record { screen = record solved { lockout_ends = pos 300000 }; pending = none }

abbrev tries : List (ℕ × Event)
tries = (100, tick) ∷ (200, verified "ok") ∷ (250, submit 250 form) ∷ []

run-locked_form_example :
    let s = (run keys tries locked).screen in
    let f = login_form keys 400 s in
    (f.footer ≡ lockout_card (lockout_clock 400 s))
    × (f.email.disabled ≡ true)
    × (f.password.disabled ≡ true)
    × (f.password_eye.disabled ≡ true)
run-locked_form_example =
    run-locked_form keys 300000 400 tries locked refl refl (omega arith) (omega arith)

meters :
    ((strength (password_score "Passw0rd!")).written ≡ "STRONG")
    × ((strength (password_score "password")).written ≡ "WEAK")
    × ((strength (password_score "Password")).written ≡ "GOOD")
unfolding strength password_score any
meters = (refl, refl, refl)

title : (render keys 5 (record solved { mode = register })).title ≡ "Create your node."
unfolding render
title = refl

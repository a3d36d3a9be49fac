-- ===== src/Tests/Script.antt =====
-- The script loader, the registration form, the messages and the lockout's clock at small inputs.
use synora_hackathon.Prelude.{◌+◌, ◌≡◌, refl, none, some, List, [], ◌∷◌, length}
use synora_hackathon.Js.Number.{pos}
use synora_hackathon.Api.Base.{Response}
use synora_hackathon.Auth.Screen.{Screen, no_entries, open_screen}
use synora_hackathon.Auth.Login.{Form}
use synora_hackathon.Auth.LockClock.{lockout_clock}
use synora_hackathon.Auth.Script.{
  Event, call, load, failure, broken, loaded, blank, apply, load_script, finish_script, run,
}
use synora_hackathon.Auth.Script.Laws.{calls, run_broken}

abbrev loads : List Event
loads = call 1 ∷ call 2 ∷ load ∷ call 3 ∷ []

loads-loaded : (run loads blank).script ≡ some loaded
unfolding run apply load_script finish_script
loads-loaded = refl

abbrev fails : List Event
fails = call 1 ∷ failure ∷ []

fails-broken : (run fails blank).script ≡ some broken
unfolding run apply load_script finish_script
fails-broken = refl

run_broken_example :
    ((run loads (run fails blank)).script ≡ some broken)
    × ((run loads (run fails blank)).settled ≡ (run fails blank).settled)
    × (length (run loads (run fails blank)).waiting
        ≡ length (run fails blank).waiting + calls loads)
run_broken_example = run_broken loads (run fails blank) fails-broken

abbrev refusal : Response
refusal = record { status = 429; body = none; retry_header = some "90" }

abbrev form : Form
form = record {
  email = some "a@b.c";
  password = some "password";
  confirm_password = some "password";
  terms = some "on";
}

abbrev fresh : Screen
fresh = open_screen 0 no_entries

abbrev locked : Screen
locked = record fresh { lockout_ends = pos (1000 + 299500) }

clock_text : lockout_clock 1000 locked ≡ "00:04:59"
unfolding lockout_clock
clock_text = refl

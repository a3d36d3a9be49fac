-- ===== src/Auth/Mount.antt =====
-- frontend/src/AuthScreen.jsx, lines 177 to 415 and 590: the two mounting effects as React runs them.
-- The effect of the CAPTCHA depends on the mode, and that of Google on nothing, so it runs once; each
-- mode has a form of its own, and with it new hosts for the two widgets.
pub mod Button
use synora_hackathon.Prelude.{
  ℕ, suc, Bool, true, false, ◌&&◌, ◌==◌, Option, none, some, List, [], ◌∷◌, if◌then◌else◌,
}
use synora_hackathon.Auth.Screen.{Mode, login, register, Screen, Local}
use synora_hackathon.Auth.Login.{Keys}
use synora_hackathon.Auth.Captcha.{start_turnstile, unmount_turnstile}
use synora_hackathon.Auth.Google.{Initialised, drawn, start_google}
use synora_hackathon.Auth.Machine
use synora_hackathon.Auth.Machine.{Machine, google_script, opened}

-- The machine of the screen, the number of the form that is there, and that of the form in whose host
-- Google has drawn its button.
pub record Mounted : Type 0 where
  pub machine : Machine
  pub form : ℕ
  pub google_host : Option ℕ

abbrev pub is_login : Mode → Bool
is_login login = true
is_login register = false

abbrev pub same_mode : Mode → Mode → Bool
same_mode login m = is_login m
same_mode register login = false
same_mode register register = true

abbrev on_screen : (Screen → Screen) → Machine → Machine
on_screen f m = record m { screen = f m.screen }

-- The effect of the CAPTCHA: only the form for signing in has its host.
abbrev mount_captcha : Keys → Machine → Machine
mount_captcha keys m = on_screen (λ s. (start_turnstile keys.site_key (is_login s.mode) s).0) m

-- Clean-up and effect, after a render in another mode.
abbrev remount_captcha : Keys → Machine → Machine
remount_captcha keys m = mount_captcha keys (on_screen unmount_turnstile m)

-- The screen after its first render, with both effects run.
unfoldable pub first_render : Keys → ℕ → Local → Mounted
unfolding start_turnstile start_google
first_render keys now l = record {
  machine = on_screen (λ s. (start_google keys.client_id s).0) (mount_captcha keys (opened now l));
  form = 0;
  google_host = none;
}

-- The host that Google's script draws its button in when it has loaded.
abbrev host_after : Machine.Event → Mounted → Option ℕ
host_after (google_script false drawn) p =
    if is_login p.machine.screen.mode then some p.form else p.google_host
host_after e p = p.google_host

module _ (keys : Keys) where
  abbrev rendered_after : Mode → Machine → Mounted → Mounted
  rendered_after before m p =
      if same_mode before m.screen.mode
      then record p { machine = m }
      else record p { machine = remount_captcha keys m; form = suc p.form }

  -- An event, and the effects of the render behind it.
  unfoldable pub apply : ℕ → Machine.Event → Mounted → Mounted
  unfolding Machine.apply unmount_turnstile start_turnstile
  apply now e p =
      rendered_after p.machine.screen.mode (Machine.apply keys now e p.machine)
        (record p { google_host = host_after e p })

  unfoldable pub run : List (ℕ × Machine.Event) → Mounted → Mounted
  run [] p = p
  run ((now, e) ∷ es) p = run es (apply now e p)

abbrev is_some : ℕ → Option ℕ → Bool
is_some n none = false
is_some n (some k) = k == n

-- Whether the page has Google's button.
unfoldable pub has_google_button : Mounted → Bool
has_google_button p = is_login p.machine.screen.mode && is_some p.form p.google_host

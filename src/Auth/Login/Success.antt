-- ===== src/Auth/Login/Success.antt =====
-- A sign-in from the form to the screen, the session and the next page.
use synora_hackathon.Prelude.{ℕ, ◌≡◌, String, ap, true, false, ◌∷◌, arith}
use synora_hackathon.Js.Number.{Num, pos}
use synora_hackathon.Js.Value.{Value, member}
use synora_hackathon.Api.Base.{Result, ok, err, Store, Writer, Network}
use synora_hackathon.Api.Session.{is_complete, persist_session}
use synora_hackathon.Api.Session.Laws.{persist_session_outcome}
use synora_hackathon.Api.Request
use synora_hackathon.Auth.Screen.{Screen, no_entries, navigate_after, clear_feedback}
use synora_hackathon.Auth.Login.{Keys, Form, finish_login, finish_sent, handle_login}
use synora_hackathon.Auth.Machine.Attempts.{MaySend, sent, begin_login-MaySend}

-- A payload that comes back from `persistSession` was complete, and its token is in use.
persist_session-ok :
    (write : Writer) (now : ℕ) (payload result : Value) (s : Store)
    → (persist_session write now payload s).1 ≡ ok result
    → (is_complete result ≡ true)
      × ((persist_session write now payload s).0.auth_token ≡ member "token" result)
persist_session-ok write now payload result s h =
    ground (arith, persist_session_outcome write now payload s)

pub signed_in-ok :
    (write : Writer) (now : ℕ) (s : Store) (r : Result Value) (result : Value)
    → (Request.signed_in write now s r).1 ≡ ok result
    → (is_complete result ≡ true)
      × ((Request.signed_in write now s r).0.auth_token ≡ member "token" result)
signed_in-ok write now s (ok payload) result h = persist_session-ok write now payload result s h
signed_in-ok write now s (err e) result h = cc

pub login-ok :
    (net : Network) (write : Writer) (now : ℕ) (email password token : String) (s : Store)
    (result : Value)
    → (Request.login net write now email password token s).1 ≡ ok result
    → (is_complete result ≡ true)
      × ((Request.login net write now email password token s).0.auth_token ≡ member "token" result)
unfolding Request.login
login-ok net write now email password token s result h =
    signed_in-ok write now s
      (Request.post_auth net "/auth" (Request.login_body email password token)
        "Authentication failed")
      result h

finish_login_complete :
    (now : ℕ) (k : Num) (result : Value) (s : Screen)
    → is_complete result ≡ true
    → let s' = finish_login now k (ok result) s in
      (s'.attempts ≡ pos 0)
      × (s'.lockout_ends ≡ pos 0)
      × (s'.local ≡ no_entries)
      × (s'.submitting ≡ false)
      × (s'.calls ≡ navigate_after 1000 "/assets/108" ∷ s.calls)
unfolding finish_login
finish_login_complete now k result s c = ground arith

-- When the form may be sent and `login` gives a result, the token of the result is in use, the
-- counters and their entries are cleared, the form is free and the visitor is sent to the auction.
pub handle_login-success :
    (keys : Keys) (net : Network) (write : Writer) (rendered now later : ℕ) (form : Form)
    (s : Screen) (store : Store) (result : Value)
    → MaySend keys rendered form s
    → let c = sent form s in
      (Request.login net write later c.email c.password c.turnstile_token store).1 ≡ ok result
      → let (s', store') = handle_login keys net write rendered now later form (s, store) in
        (store'.auth_token ≡ member "token" result)
        × (s'.attempts ≡ pos 0)
        × (s'.lockout_ends ≡ pos 0)
        × (s'.local ≡ no_entries)
        × (s'.submitting ≡ false)
        × (s'.calls ≡ navigate_after 1000 "/assets/108" ∷ s.calls)
unfolding handle_login
handle_login-success keys net write rendered now later form s store result m h =
    let sending = clear_feedback (record s { submitting = true }) in
    let (c, t) =
      login-ok net write later (sent form s).email (sent form s).password
        (sent form s).turnstile_token store result h in
    rw
      (ap (finish_sent net write later s.attempts store)
        (begin_login-MaySend keys rendered now form s m))
      (rw h (
        let (attempts, ends, entries, idle, calls) =
          finish_login_complete later s.attempts result sending c in
        (t, attempts, ends, entries, idle, calls)))

-- ===== src/App/Arrival.antt =====
-- From the sign-in form to the terminal of the auction.
use synora_hackathon.Prelude.{ℕ, ◌≡◌, refl, ap, ◌∙◌, true, some, String, ◌∷◌, arith}
use synora_hackathon.Js.Value.{Value, truthy, member}
use synora_hackathon.Api.Base.{ok, Store, Writer, Network}
use synora_hackathon.Api.Session.{is_complete, get_auth_token}
use synora_hackathon.Api.Request
use synora_hackathon.Auth.Screen.{navigate_after, Screen}
use synora_hackathon.Auth.Login.{Keys, Form, handle_login}
use synora_hackathon.Auth.Login.Success.{login-ok, handle_login-success}
use synora_hackathon.Auth.Machine.Attempts.{MaySend, sent}
use synora_hackathon.App.Routes.{Router, auction_terminal, page_at, visit}
use synora_hackathon.App.Visit.{visit-asset}
use synora_hackathon.Terminal.Screen as Terminal
use synora_hackathon.Terminal.Screen.{begin_bid}

get_auth_token-held :
    (now : ℕ) (token : Value) (s : Store)
    → s.auth_token ≡ token
    → truthy token ≡ true
    → (get_auth_token now s).1 ≡ token
unfolding get_auth_token
get_auth_token-held now token s h t = ground arith

token-truthy : (v : Value) → is_complete v ≡ true → truthy (member "token" v) ≡ true
token-truthy v h = ground arith

begin_bid-sent :
    (token : Value) (s : Terminal.Screen) → truthy token ≡ true → begin_bid token s ≡ (s, true)
unfolding begin_bid
begin_bid-sent token s h = rw h refl

-- A sign-in whose form may be sent and that the server accepts ends at the terminal of auction 108:
-- the visitor is sent to a path that shows it, the terminal reads the token of the answer, and a bid
-- there is sent.
pub sign_in_arrives :
    (router : Router) (keys : Keys) (net : Network) (write : Writer) (rendered now later : ℕ)
    (form : Form) (s : Screen) (store : Store) (result : Value) (arrival : ℕ)
    (terminal : Terminal.Screen)
    → MaySend keys rendered form s
    → let c = sent form s in
      (Request.login net write later c.email c.password c.turnstile_token store).1 ≡ ok result
      → let (s', store') = handle_login keys net write rendered now later form (s, store) in
        let token = (get_auth_token arrival store').1 in
        (path : String) × (s'.calls ≡ navigate_after 1000 path ∷ s.calls)
        × (visit router 2 path ≡ some (page_at path (auction_terminal "108")))
        × (token ≡ member "token" result)
        × (begin_bid token terminal ≡ (terminal, true))
sign_in_arrives router keys net write rendered now later form s store result arrival terminal m h =
    let (held, attempts, ends, entries, idle, calls) =
      handle_login-success keys net write rendered now later form s store result m h in
    let (whole, same) =
      login-ok net write later (sent form s).email (sent form s).password
        (sent form s).turnstile_token store result h in
    let given = token-truthy result whole in
    let read = get_auth_token-held arrival (member "token" result) _ held given in
    (
      "/assets/108",
      calls,
      visit-asset router 0 "108" refl,
      read,
      ap (λ t. begin_bid t terminal) read ∙ begin_bid-sent (member "token" result) terminal given,
    )

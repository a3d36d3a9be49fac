-- ===== src/Auth/Google/Laws.antt =====
-- What the callback of Google's script does to the screen and the session.
use synora_hackathon.Prelude.{
  String, ℕ, ◌≡◌, refl, ap, ◌⊎◌, inl, inr, true, false, Option, none, some, ◌∷◌, arith,
}
use synora_hackathon.Js.Number.{pos}
use synora_hackathon.Js.Value.{
  undefined, null, bool, num, str, arr, truthy, Value, obj, end, field, member,
}
use synora_hackathon.Api.Base.{Error, ok, err, Result-cases, Store, Writer, Network}
use synora_hackathon.Api.Session.{is_complete}
use synora_hackathon.Api.Request
use synora_hackathon.Auth.Screen.{Screen, no_entries, navigate_after, clear_feedback}
use synora_hackathon.Auth.Login.Success.{signed_in-ok}
use synora_hackathon.Auth.Google.{
  is_credential, finish_google_login, begin_google_login, finish_callback, google_callback,
}

-- The visitor stays on the page, with the counters as they were.
abbrev pub Stays : Screen → Screen → Type 0
Stays s s' =
    (s'.google_submitting ≡ false)
    × (s'.attempts ≡ s.attempts)
    × (s'.lockout_ends ≡ s.lockout_ends)
    × (s'.local ≡ s.local)
    × (s'.calls ≡ s.calls)

-- The counters are cleared and the visitor is sent to the auction.
abbrev pub GoesOn : Screen → Screen → Type 0
GoesOn s s' =
    (s'.google_submitting ≡ false)
    × (s'.attempts ≡ pos 0)
    × (s'.lockout_ends ≡ pos 0)
    × (s'.local ≡ no_entries)
    × (s'.calls ≡ navigate_after 1000 "/assets/108" ∷ s.calls)

finish_google_login_complete :
    (result : Value) (s : Screen)
    → is_complete result ≡ true
    → GoesOn s (finish_google_login (ok result) s)
unfolding finish_google_login
finish_google_login_complete result s c = ground arith

login_with_google-ok :
    (net : Network) (write : Writer) (now : ℕ) (credential result : Value) (s : Store)
    → (Request.login_with_google net write now credential s).1 ≡ ok result
    → (is_complete result ≡ true)
      × ((Request.login_with_google net write now credential s).0.auth_token
          ≡ member "token" result)
unfolding Request.login_with_google
login_with_google-ok net write now credential result s h = ground (
  arith,
  signed_in-ok write now s
      (Request.post_auth net "/auth/google" (obj (field "credential" credential end))
        "Google authentication failed")
      result,
)

text-truthy : (s : String) → is_credential (str s) ≡ true → truthy (str s) ≡ true
text-truthy String.[] h = absurd (ground arith)
text-truthy (String.◌∷◌ c s) h = refl

credential-truthy : (v : Value) → is_credential v ≡ true → truthy v ≡ true
credential-truthy (str s) h = text-truthy s h
credential-truthy undefined h = absurd (ground arith)
credential-truthy null h = absurd (ground arith)
credential-truthy (bool b) h = absurd (ground arith)
credential-truthy (num n) h = absurd (ground arith)
credential-truthy (obj fs) h = absurd (ground arith)
credential-truthy (arr xs) h = absurd (ground arith)

begin_google_login_cases :
    (response : Value) (s : Screen)
    → let credential = member "credential" response in
      ((begin_google_login response s
          ≡ (clear_feedback (record s { google_submitting = true }), some credential))
        × (is_credential credential ≡ true))
      ⊎ ((is_credential credential ≡ false)
          × ((begin_google_login response s).1 ≡ none)
          × Stays s (begin_google_login response s).0)
unfolding begin_google_login
begin_google_login_cases response s =
    let t = credential-truthy (member "credential" response) in ground arith

finish_google_login-err :
    (e : Error) (s : Screen)
    → Stays s (finish_google_login (err e) (clear_feedback (record s { google_submitting = true })))
unfolding finish_google_login clear_feedback
finish_google_login-err e s = ground arith

-- What the callback leaves behind, given the credential.
abbrev pub CallbackOutcome : Network → Writer → ℕ → Value → Screen × Store → Screen × Store → Type 0
CallbackOutcome net write later credential (s, store) (s', store') =
    ((is_credential credential ≡ false) × Stays s s' × (store' ≡ store))
    ⊎ ((is_credential credential ≡ true)
        × (store' ≡ (Request.login_with_google net write later credential store).0)
        × ((Stays s s'
              × ((e : Error) × ((Request.login_with_google net write later credential store).1
                    ≡ err e)))
            ⊎ (GoesOn s s'
                × ((result : Value) × ((Request.login_with_google net write later credential
                        store).1
                      ≡ ok result)
                    × (store'.auth_token ≡ member "token" result)))))

finish_callback-outcome :
    (net : Network) (write : Writer) (later : ℕ) (credential : Value) (s : Screen) (store : Store)
    → is_credential credential ≡ true
    → CallbackOutcome net write later credential
        (s, store)
        (finish_callback net write later store
          (clear_feedback (record s { google_submitting = true }), some credential))
unfolding clear_feedback
finish_callback-outcome net write later credential s store c =
    elim (Result-cases (Request.login_with_google net write later credential store).1) [
      | inl (result, fine) ↦
          let (whole, t) = login_with_google-ok net write later credential result store fine in
          inr (
            c,
            refl,
            inr (
              rw fine (
                  finish_google_login_complete result
                    (clear_feedback (record s { google_submitting = true })) whole),
              (result, fine, t),
            ),
          )
      | inr (e, failed) ↦ inr (c, refl, inl (rw failed (finish_google_login-err e s), (e, failed)))
    ]

finish_callback-none :
    (net : Network) (write : Writer) (later : ℕ) (store : Store) (p : Screen × Option Value)
    → p.1 ≡ none
    → finish_callback net write later store p ≡ (p.0, store)
finish_callback-none net write later store (s, none) h = refl
finish_callback-none net write later store (s, some credential) h = cc

-- After the callback the Google button is free again. With a credential that is a text of at least
-- fifty characters the session becomes what `loginWithGoogle` makes of it; if that signs in, its token is
-- in use, the counters are cleared and the visitor is sent on, and if it fails, the visitor stays with
-- the counters as they were. Without such a credential the visitor stays too, and the session does not
-- change.
pub google_callback-outcome :
    (net : Network) (write : Writer) (later : ℕ) (response : Value) (s : Screen) (store : Store)
    → CallbackOutcome net write later
        (member "credential" response)
        (s, store)
        (google_callback net write later response (s, store))
unfolding google_callback
google_callback-outcome net write later response s store =
    elim (begin_google_login_cases response s) [
      | inl (sent, c) ↦
          rw (ap (finish_callback net write later store) sent)
            (finish_callback-outcome net write later (member "credential" response) s store c)
      | inr (bad, none_sent, stays) ↦
          rw (finish_callback-none net write later store (begin_google_login response s) none_sent)
            (inl (bad, stays, refl))
    ]

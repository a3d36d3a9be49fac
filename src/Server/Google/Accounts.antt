-- ===== src/Server/Google/Accounts.antt =====
-- The accounts of visitors who sign in with Google.
use synora_hackathon.Prelude.{
  ℕ, ◌≡◌, refl, ap, ◌∙◌, ◌⊎◌, inl, inr, true, false, none, some, List, ◌∷◌, String, str_eq, eq_iff,
  eq_refl, Bool-cases, Option-cases,
}
use synora_hackathon.Js.Text.{is_empty}
use synora_hackathon.Js.Value.{str, obj, field, end}
use synora_hackathon.Api.Base.{post, Response}
use synora_hackathon.Server.SignIn.{
  Account, Libraries, Config, find_account, issue, internal_error, go_trim,
}
use synora_hackathon.Server.Google.{
  Tokeninfo, verify_google_id_token, google_sign_in, google_auth, Calls, create_account,
  account_for,
}

-- The same accounts, or one more, for an email that had none.
pub record Keeps (email : String) (users users' : List Account) : Type 0 where
  pub kept :
      (other : String) (b : Account)
      → find_account other users ≡ some b
      → find_account other users' ≡ some b
  pub only :
      (other : String)
      → str_eq email other ≡ false
      → find_account other users' ≡ find_account other users

Keeps-same : (email : String) (users : List Account) → Keeps email users users
Keeps-same email users = record { kept = λ other b h. h; only = λ other h. refl }

find-other :
    (a : Account) (users : List Account) (other : String)
    → str_eq a.email other ≡ false
    → find_account other (a ∷ users) ≡ find_account other users
unfolding find_account
find-other a users other h = rw h refl

find-kept :
    (a : Account) (users : List Account) (other : String) (b : Account)
    → find_account a.email users ≡ none
    → find_account other users ≡ some b
    → find_account other (a ∷ users) ≡ some b
find-kept a users other b h k = elim (Bool-cases (str_eq a.email other)) [
  | inl same ↦ cc (ap (λ t. find_account t users) ((eq_iff a.email other).0 same), h, k)
  | inr differs ↦ find-other a users other differs ∙ k
]

Keeps-new :
    (a : Account) (users : List Account)
    → find_account a.email users ≡ none
    → Keeps a.email users (a ∷ users)
Keeps-new a users h = record {
  kept = λ other b k. find-kept a users other b h k;
  only = λ other k. find-other a users other k;
}

find-new : (a : Account) (users : List Account) → find_account a.email (a ∷ users) ≡ some a
unfolding find_account
find-new a users = rw (eq_refl a.email) refl

-- An email with an account: what every later sign-in with it comes to.
abbrev Settles : Config → Libraries → String → List Account → Account → Type 0
Settles cfg lib email users a =
    (now : ℕ) (calls : Calls)
    → calls.queries ≡ true
    → account_for cfg lib now calls email users ≡ (users, issue cfg lib now a.id email)

account_for-found :
    (cfg : Config) (lib : Libraries) (email : String) (users : List Account) (a : Account)
    → find_account email users ≡ some a
    → Settles cfg lib email users a
unfolding account_for
account_for-found cfg lib email users a h now calls q = rw (q, h) refl

-- A sign-in with Google that makes or finds an account.
abbrev pub Signs : Config → Libraries → ℕ → String → List Account → List Account × Response → Type 0
Signs cfg lib now email users (users', x) =
    (a : Account) × (find_account email users' ≡ some a)
    × (x ≡ issue cfg lib now a.id email)
    × Keeps email users users'
    × Settles cfg lib email users' a

-- Or one that fails in the database or for want of a password.
abbrev pub Breaks : List Account → List Account × Response → Type 0
Breaks users (users', x) = (users' ≡ users) × (x.status ≡ 500)

module _ (cfg : Config) (lib : Libraries) (now : ℕ) (calls : Calls) (email : String)
    (users : List Account) where
  abbrev end_of : List Account × Response
  end_of = account_for cfg lib now calls email users

  end_of-down :
      calls.queries ≡ false → end_of ≡ (users, internal_error "Unable to load Google account")
  unfolding account_for
  end_of-down down = rw down refl

  end_of-missing :
      calls.queries ≡ true
      → find_account email users ≡ none
      → end_of ≡ create_account cfg lib now calls email users
  unfolding account_for
  end_of-missing reads missing = rw (reads, missing) refl

  Signs-found :
      (a : Account)
      → calls.queries ≡ true
      → find_account email users ≡ some a
      → Signs cfg lib now email users end_of
  Signs-found a reads found =
      rw (account_for-found cfg lib email users a found now calls reads)
        (a, found, refl, Keeps-same email users, account_for-found cfg lib email users a found)

  Signs-created :
      (hash id : String)
      → find_account email users ≡ none
      → let a : Account = record { id = id; email = email; password_hash = hash } in
        Signs cfg lib now email users (a ∷ users, issue cfg lib now id email)
  Signs-created hash id missing =
      let a : Account = record { id = id; email = email; password_hash = hash } in
      (
        a,
        find-new a users,
        refl,
        Keeps-new a users missing,
        account_for-found cfg lib email (a ∷ users) a (find-new a users),
      )

  create_account-cases :
      find_account email users ≡ none
      → Breaks users (create_account cfg lib now calls email users)
        ⊎ Signs cfg lib now email users (create_account cfg lib now calls email users)
  create_account-cases missing = elim (Option-cases calls.new_hash) [
    | inl unmade ↦ rw (create_account, unmade) (inl (refl, refl))
    | inr (hash, made) ↦ elim (Option-cases calls.new_id) [
      | inl unstored ↦ rw (create_account, made, unstored) (inl (refl, refl))
      | inr (id, stored) ↦ rw (create_account, made, stored) (inr (Signs-created hash id missing))
    ]
  ]

  account_for-cases : Breaks users end_of ⊎ Signs cfg lib now email users end_of
  account_for-cases = elim (Bool-cases calls.queries) [
    | inr down ↦ rw (end_of-down down) (inl (refl, refl))
    | inl reads ↦ elim (Option-cases (find_account email users)) [
      | inr (a, found) ↦ inr (Signs-found a reads found)
      | inl missing ↦ rw (end_of-missing reads missing) (create_account-cases missing)
    ]
  ]

google_auth-credential :
    (cfg : Config) (lib : Libraries) (tokeninfo : String → Tokeninfo) (now : ℕ) (calls : Calls)
    (credential : String) (users : List Account)
    → is_empty (go_trim cfg.google_client_id) ≡ false
    → google_auth cfg lib tokeninfo now calls post
        (some (obj (field "credential" (str credential) end)))
        users
      ≡ google_sign_in cfg lib tokeninfo now calls credential users
unfolding google_auth
google_auth-credential cfg lib tokeninfo now calls credential users c = rw c refl

google_auth-account_for :
    (cfg : Config) (lib : Libraries) (tokeninfo : String → Tokeninfo) (now : ℕ) (calls : Calls)
    (credential email : String) (users : List Account)
    → is_empty (go_trim cfg.google_client_id) ≡ false
    → is_empty (go_trim credential) ≡ false
    → verify_google_id_token cfg tokeninfo now credential ≡ some email
    → google_auth cfg lib tokeninfo now calls post
        (some (obj (field "credential" (str credential) end)))
        users
      ≡ account_for cfg lib now calls email users
google_auth-account_for cfg lib tokeninfo now calls credential email users c p v =
    google_auth-credential cfg lib tokeninfo now calls credential users c
    ∙ rw (google_sign_in, p, v) refl

-- Take a credential that is not blank, that Google confirms for an email, at a server that has a client id,
-- in the body that the client sends. Either the answer is 500 and no account has changed; or there is an
-- account of the email, the answer is the end of a sign-in for it, every account that was there is
-- there, none but that of the email is new, and whenever Google confirms the email again and the database
-- answers, the sign-in is for the same account and makes no other.
pub google_auth-account :
    (cfg : Config) (lib : Libraries) (tokeninfo : String → Tokeninfo) (now : ℕ) (calls : Calls)
    (credential email : String) (users : List Account)
    → is_empty (go_trim cfg.google_client_id) ≡ false
    → is_empty (go_trim credential) ≡ false
    → verify_google_id_token cfg tokeninfo now credential ≡ some email
    → let end_of =
        google_auth cfg lib tokeninfo now calls post
          (some (obj (field "credential" (str credential) end)))
          users in
      Breaks users end_of ⊎ Signs cfg lib now email users end_of
google_auth-account cfg lib tokeninfo now calls credential email users c p v =
    rw (google_auth-account_for cfg lib tokeninfo now calls credential email users c p v)
      (account_for-cases cfg lib now calls email users)

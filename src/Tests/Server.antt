-- ===== src/Tests/Server.antt =====
-- The server's limiter, list and sign-ins at small inputs.
use Prim.Native.String.{[], ◌∷◌}
use synora_hackathon.Prelude.{
  not, inl, inr, ℕ, zero, suc, ◌≤◌, ◌≡◌, refl, ap, ◌⊎◌, true, false, Option, none, some, List,
  String, str_eq, ◌&&◌, code, ◌==◌, arith, filter, if◌then◌else◌,
}
use mathlib.Core.List as L
use synora_hackathon.Js.Value.{Value, str, obj, field, end}
use synora_hackathon.Js.Number.{pos}
use synora_hackathon.Js.Text.{is_empty}
use synora_hackathon.Api.Base.{Error, Network, response, post, ok, err}
use synora_hackathon.Api.Request.{post_auth, login_body, json_response}
use synora_hackathon.Auth.Describe.{describe_auth_error, too_many_attempts}
use synora_hackathon.Js.Text.{includes_lower}
use synora_hackathon.Js.Value.{member}
use synora_hackathon.Auth.Describe.{has_status, has_code}
use synora_hackathon.Auth.Login.{is_invalid_credentials, is_captcha_error}
use synora_hackathon.Server.Limiter.{Limiter, LimitEntry, new_limiter, allow, rate_limited, passes}
use synora_hackathon.Server.Limiter.Window.{passes-le}
use synora_hackathon.Server.Limiter.Wait.{allow-wait}
use synora_hackathon.Server.Listing.{Auction, Cursor, collect}
use synora_hackathon.Server.Listing.Pages.{collect_all}
use synora_hackathon.Server.Listing.Order.{Descends}
use synora_hackathon.Server.SignIn.{
  session_body, Account, Libraries, Config, verdict, go_trim, to_lower, auth, validate_turnstile,
}
use synora_hackathon.Server.SignIn.Served.{post_auth-served, is_owner, Accepted, counts, is_none}
use synora_hackathon.Server.Google.{Tokeninfo, info, verify_google_id_token, Calls, google_auth}
use synora_hackathon.Server.Google.Accounts.{google_auth-account, Breaks, Signs}

-- Three requests of one visitor and one of another, at a limiter of two in a minute.
abbrev requests : List (ℕ × String)
requests = L.◌∷◌ (5, "a") (L.◌∷◌ (6, "a") (L.◌∷◌ (6, "b") (L.◌∷◌ (50000, "a") L.[])))

passes_two : passes "a" requests (new_limiter 2) ≡ 2
unfolding passes
passes_two = refl

passes-le_example : passes "a" requests (new_limiter 2) ≤ 4
passes-le_example =
    passes-le "a" 0 requests (new_limiter 2)
      (
        omega arith,
        omega arith,
        (omega arith, omega arith, (omega arith, omega arith, (omega arith, omega arith, tt))),
      )
      (omega arith) tt

abbrev spent : LimitEntry
spent = record { at = 1000; n = 2 }

abbrev busy : Limiter
busy = record { m = λ q. some spent; max = 2 }

allow-refuses : (allow 31500 "a" busy).1 ≡ false
unfolding allow
allow-refuses = refl

-- 29 seconds later.
refused_again : (allow 60500 "a" busy).1 ≡ false
unfolding allow
refused_again = refl

allow-wait_example :
    let (l', may, retry) = allow 31500 "a" busy in
    (r : Error) × (json_response (rate_limited retry) "failed" ≡ err r)
    × (describe_auth_error r ≡ too_many_attempts (pos 1))
    × ((allow 91500 "a" l').1 ≡ true)
allow-wait_example =
    allow-wait 31500 "a" busy spent "failed" 91500 refl (omega arith) allow-refuses (omega arith)

-- A way to write a cursor.
abbrev put_number : ℕ → String → String
put_number zero s = "b" ∷ s
put_number (suc n) s = "a" ∷ put_number n s

abbrev one_more : Option (ℕ × String) → Option (ℕ × String)
one_more none = none
one_more (some (n, s)) = some (suc n, s)

abbrev take_number : String → Option (ℕ × String)
take_number [] = none
take_number (c ∷ s) =
    let later = take_number s in if code c == b'a' then one_more later else some (0, s)

take_number-put_number : (n : ℕ) (s : String) → take_number (put_number n s) ≡ some (n, s)
take_number-put_number zero s = refl
take_number-put_number (suc n) s = ap one_more (take_number-put_number n s)

abbrev put_cursor : Cursor → String
put_cursor (start, id) = put_number start (put_number id "")

abbrev with_start : ℕ → Option (ℕ × String) → Option Cursor
with_start start none = none
with_start start (some (id, s)) = some (start, id)

abbrev of_start : Option (ℕ × String) → Option Cursor
of_start none = none
of_start (some (start, s)) = with_start start (take_number s)

abbrev take_cursor : String → Option Cursor
take_cursor s = of_start (take_number s)

take_cursor-put_cursor : (c : Cursor) → take_cursor (put_cursor c) ≡ some c
take_cursor-put_cursor (start, id) =
    rw (take_number-put_number start (put_number id ""), take_number-put_number id "") refl

put_cursor_full : (c : Cursor) → is_empty (put_cursor c) ≡ false
put_cursor_full (zero, id) = refl
put_cursor_full (suc start, id) = refl

-- Two of three auctions at one time, and one that is over.
abbrev an_auction : ℕ → ℕ → String → Auction
an_auction start id status = record { id = id; start = start; status = status }

abbrev table : List Auction
table = L.◌∷◌ (an_auction 9 2 "ACTIVE") (
    L.◌∷◌ (an_auction 9 1 "ACTIVE")
      (L.◌∷◌ (an_auction 8 7 "ENDED") (L.◌∷◌ (an_auction 7 5 "ACTIVE") L.[])))

table-Descends : Descends table
table-Descends = (
  (inr (refl, omega arith), (inl (omega arith), (inl (omega arith), tt))),
  ((inl (omega arith), (inl (omega arith), tt)), ((inl (omega arith), tt), (tt, tt))),
)

abbrev active : List Auction
active =
    L.◌∷◌ (an_auction 9 2 "ACTIVE")
      (L.◌∷◌ (an_auction 9 1 "ACTIVE") (L.◌∷◌ (an_auction 7 5 "ACTIVE") L.[]))

collect_all_example : collect put_cursor take_cursor 3 "" 1 "" table ≡ active
unfolding filter
collect_all_example =
    collect_all put_cursor take_cursor table "" table-Descends (refl, (refl, (refl, (refl, tt)))) 0
      (omega arith) put_cursor_full take_cursor-put_cursor 3 (omega arith)

abbrev config : Config
config = record { turnstile_secret = "secret"; google_client_id = "client"; ttl = 3600 }

abbrev libraries : Libraries
libraries = record {
  matches = λ hash password. str_eq hash password;
  sign = λ uid now. some uid;
  siteverify = λ secret token ip. verdict (str_eq token "ok");
}

abbrev accounts : List Account
accounts = L.◌∷◌ (record { id = "u1"; email = "a@b.in"; password_hash = "Secret1!" }) L.[]

abbrev credentials : Value
credentials = login_body " A@b.in" "Secret1!" "ok"

abbrev through : Network
through r = response (auth config libraries 5 true accounts "1.2.3.4" post (some r.body))

signs_in :
    post_auth through "/auth" credentials "failed" ≡ ok (session_body "u1" "u1" "a@b.in" 3600)
unfolding post_auth json_response auth
signs_in = refl

post_auth-served_example :
    let passes = is_none (validate_turnstile config libraries "ok" "1.2.3.4") in
    let r = post_auth through "/auth" credentials "failed" in
    ((passes ≡ true) × (true ≡ true) × Accepted config libraries 5 accounts "a@b.in" "Secret1!" r)
    ⊎ ((e : Error) × (r ≡ err e)
        × (counts e ≡ (passes && not (true && is_owner libraries accounts "a@b.in" "Secret1!"))))
unfolding to_lower go_trim
post_auth-served_example =
    post_auth-served config libraries 5 true accounts "1.2.3.4" through " A@b.in" "Secret1!" "ok"
      "failed" refl refl refl

abbrev down : Network
down r = response (auth config libraries 5 false accounts "1.2.3.4" post (some r.body))

-- A database that does not answer is told as a wrong password.
outage : (e : Error) × (post_auth down "/auth" credentials "failed" ≡ err e) × (counts e ≡ true)
unfolding post_auth json_response auth member has_status has_code is_invalid_credentials
    is_captcha_error includes_lower
outage = (_, refl, refl)

abbrev google_says : String → Tokeninfo
google_says credential = info (record {
  aud = "client";
  iss = "accounts.google.com";
  email = "New@b.in";
  email_verified = str "true";
  exp = "2000";
})

abbrev stores : Calls
stores = record { queries = true; new_hash = some "h"; new_id = some "u2" }

verify-new : verify_google_id_token config google_says 1999 "c" ≡ some "new@b.in"
unfolding verify_google_id_token
verify-new = refl

verify-expired : verify_google_id_token config google_says 2000 "c" ≡ none
unfolding verify_google_id_token
verify-expired = refl

google_auth-account_example :
    let end_of =
      google_auth config libraries google_says 1999 stores post
        (some (obj (field "credential" (str "c") end)))
        accounts in
    Breaks accounts end_of ⊎ Signs config libraries 1999 "new@b.in" accounts end_of
unfolding go_trim
google_auth-account_example =
    google_auth-account config libraries google_says 1999 stores "c" "new@b.in" accounts refl refl
      verify-new

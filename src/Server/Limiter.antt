-- ===== src/Server/Limiter.antt =====
-- backend/internal/handlers/handlers.go, lines 38 to 67, 110 to 144 and 201 to 206: the rate limiter and the
-- middleware in front of every handler. Times are milliseconds of a clock that does not go back.
pub mod Window
pub mod Wait
use Prim.Native.String.{◌++◌}
use synora_hackathon.Prelude.{
  ℕ, suc, ◌+◌, ◌-◌, ◌/◌, Bool, true, false, ◌&&◌, Option, none, some, List, [], ◌∷◌, String, str_eq,
  ltb, leb, if◌then◌else◌,
}
use synora_hackathon.Js.Number.{pos}
use synora_hackathon.Js.Decimal.{decimal}
use synora_hackathon.Js.Text.{starts_with}
use synora_hackathon.Js.Value.{Value, num, str, obj, Fields, end, field}
use synora_hackathon.Api.Base.{Method, get, post, Response}

-- `limitEntry`: when the minute began, and the requests in it.
pub record LimitEntry : Type 0 where
  pub at : ℕ
  pub n : ℕ

pub record Limiter : Type 0 where
  pub m : String → Option LimitEntry
  pub max : ℕ

abbrev pub new_limiter : ℕ → Limiter
new_limiter max = record { m = λ k. none; max = max }

-- `int((time.Minute - now.Sub(e.at)).Seconds())`, and at least 1.
abbrev pub retry_seconds : ℕ → LimitEntry → ℕ
retry_seconds now e = let retry = (e.at + 60000 - now) / 1000 in if ltb retry 1 then 1 else retry

-- `Allow` on the entry of the key: the entry behind it, whether the request may pass, and the seconds
-- to wait.
unfoldable pub allow_entry : ℕ → (max : ℕ) → Option LimitEntry → Option LimitEntry × Bool × ℕ
allow_entry now max none = (some (record { at = now; n = 1 }), true, 0)
allow_entry now max (some e) =
    if leb (e.at + 60000) now
    then (some (record { at = now; n = 1 }), true, 0)
    else if leb max e.n
    then (some e, false, retry_seconds now e)
    else (some (record e { n = suc e.n }), true, 0)

-- `Allow`.
unfoldable pub allow : ℕ → String → Limiter → Limiter × Bool × ℕ
unfolding allow_entry
allow now k l =
    let (e, ok, retry) = allow_entry now l.max (l.m k) in
    (record l { m = λ q. if str_eq q k then e else l.m q }, ok, retry)

-- `writeErr`.
abbrev pub write_err : ℕ → (code message : String) → Fields → Response
write_err status code message details = record {
  status = status;
  body = some (
      obj (
        field "error"
          (obj (
            field "code" (str code)
              (field "message" (str message) (field "details" (obj details) end))))
          end));
  retry_header = none;
}

abbrev pub rate_limited : ℕ → Response
rate_limited retry =
    record (write_err 429 "RATE_LIMITED" "Too many requests. Try again shortly."
      (field "retry_after" (num (pos retry)) end)) { retry_header = some (decimal retry) }

-- The limiters of the server, one for all requests and one for signing in.
pub record Limiters : Type 0 where
  pub limiter : Option Limiter
  pub auth_limiter : Option Limiter

abbrev is_post : Method → Bool
is_post get = false
is_post post = true

-- `r.Method == http.MethodPost && strings.HasPrefix(r.URL.Path, "/api/v1/auth")`.
abbrev pub is_auth_request : Method → String → Bool
is_auth_request method path = is_post method && starts_with path "/api/v1/auth"

-- The answer of a limiter, or of the handler behind it.
abbrev limited : ℕ → String → Response → Limiter → Limiter × Response
limited now host answer l =
    let (l', ok, retry) = allow now host l in
    (l', if ok then answer else rate_limited (if ltb retry 1 then 1 else retry))

abbrev by_limiter : ℕ → String → Response → Limiters → Limiters × Response
by_limiter now host answer ls = elim ls.limiter [
  | none ↦ (ls, answer)
  | some l ↦ let (l', x) = limited now host answer l in (record ls { limiter = some l' }, x)
]

-- `withMiddleware` on a request that is not OPTIONS, from `host`; `answer` is what the handler answers.
unfoldable pub with_middleware :
    ℕ → (host : String) → Method → (path : String) → Response → Limiters → Limiters × Response
unfolding allow starts_with
with_middleware now host method path answer ls =
    if is_auth_request method path
    then elim ls.auth_limiter [
      | none ↦ by_limiter now host answer ls
      | some l ↦
          let (l', x) = limited now host answer l in (record ls { auth_limiter = some l' }, x)
    ]
    else by_limiter now host answer ls

-- How many requests of `k` pass, of those that reach one limiter.
unfoldable pub passes : String → List (ℕ × String) → Limiter → ℕ
unfolding allow
passes k [] l = 0
passes k ((now, q) ∷ es) l =
    let (l', ok, retry) = allow now q l in
    let rest = passes k es l' in if ok && str_eq k q then suc rest else rest

-- ===== src/Api/Request.antt =====
-- frontend/src/api.js, lines 81 to 153: the requests, and how a response becomes a value or an error.
pub mod Laws
use Prim.Native.String.{◌++◌}
use synora_hackathon.Prelude.{
  ℕ, zero, suc, Bool, true, false, Option, none, some, String, if◌then◌else◌,
}
use synora_hackathon.Js.Number.{Num, nan, pos, negsuc}
use synora_hackathon.Js.Double.{fixed_2}
use synora_hackathon.Js.Decimal.{decimal, text_of_num, num_of_text}
use synora_hackathon.Js.Value.{
  Value, undefined, null, num, str, arr, nil, obj, Fields, end, field, truthy, or_else, member,
  is_nullish, text_of, num_of,
}
use synora_hackathon.Api.Base.{
  Error, plain_error, coded_error, Result, ok, err, ◌>>=◌, Store, Writer, Method, get, post,
  Request, Response, is_ok, Fetched, unreachable, response, Network, bearer,
}
use synora_hackathon.Api.Session.{persist_session}

abbrev pub header_value : Option String → Value
header_value none = null
header_value (some text) = str text

abbrev pub parsed_or_empty : Option Value → Value
parsed_or_empty none = obj end
parsed_or_empty (some v) = v

-- The error that `jsonResponse` builds from a refusal.
abbrev pub response_error : Response → Value → String → Error
response_error r payload fallback =
    let e = member "error" payload in
    record {
      message = text_of (or_else (member "message" e) (str fallback));
      code = member "code" e;
      status = some r.status;
      retry_after = num (
          num_of (
            or_else (member "retry_after" (member "details" e))
              (or_else (header_value r.retry_header) (num (pos 0)))));
    }

-- `jsonResponse`.
unfoldable pub json_response : Response → String → Result Value
unfolding text_of
json_response r fallback =
    let payload = parsed_or_empty r.body in
    if is_ok r then ok payload else err (response_error r payload fallback)

abbrev pub network_error : Error
network_error =
    coded_error "Unable to reach the authentication service. Check your connection and try again."
      "NETWORK_ERROR"

abbrev pub post_request : String → Value → Request
post_request path body = record { method = post; path = path; authorization = none; body = body }

-- A `fetch` that fails becomes NETWORK_ERROR.
abbrev pub auth_answer : Fetched → String → Result Value
auth_answer (unreachable e) fallback = err network_error
auth_answer (response r) fallback = json_response r fallback

-- `postAuth`.
unfoldable pub post_auth : Network → String → Value → String → Result Value
unfolding json_response
post_auth net path body fallback = auth_answer (net (post_request path body)) fallback

-- The end of both sign-ins: `persistSession(payload); return payload`.
abbrev pub signed_in : Writer → ℕ → Store → Result Value → Store × Result Value
signed_in write now s (err e) = (s, err e)
signed_in write now s (ok payload) = persist_session write now payload s

abbrev pub login_body : String → String → String → Value
login_body email password turnstile_token = obj (
    field "email" (str email)
      (field "password" (str password) (field "cf_turnstile_response" (str turnstile_token) end)))

-- `login`.
unfoldable pub login :
    Network → Writer → ℕ → String → String → String → Store → Store × Result Value
unfolding post_auth
login net write now email password turnstile_token s =
    signed_in write now s
      (post_auth net "/auth" (login_body email password turnstile_token) "Authentication failed")

abbrev pub credential_missing : Error
credential_missing = coded_error "Google credential is missing" "VALIDATION_ERROR"

-- `loginWithGoogle`.
unfoldable pub login_with_google : Network → Writer → ℕ → Value → Store → Store × Result Value
unfolding post_auth
login_with_google net write now credential s =
    if truthy credential
    then signed_in write now s (
        post_auth net "/auth/google" (obj (field "credential" credential end))
          "Google authentication failed")
    else (s, err credential_missing)

-- A `fetch` outside of `postAuth` throws its own error.
abbrev pub answer : Fetched → String → Result Value
answer (unreachable e) fallback = err e
answer (response r) fallback = json_response r fallback

abbrev pub fetch_json : Network → Request → String → Result Value
fetch_json net r fallback = answer (net r) fallback

abbrev pub get_request : String → Value → Request
get_request path token = record {
  method = get;
  path = path;
  authorization = if truthy token then some (bearer token) else none;
  body = undefined;
}

-- `payload.key` on a body that is `null`, in V8's words.
abbrev pub type_error : String → Error
type_error key = plain_error ("Cannot read properties of null (reading '" ++ (key ++ "')"))

-- `payload.auction || payload`.
abbrev pub auction_of : Value → Result Value
auction_of payload =
    if is_nullish payload
    then err (type_error "auction")
    else ok (or_else (member "auction" payload) payload)

-- `getAuction`.
unfoldable pub get_auction : Network → String → Value → Result Value
unfolding json_response
get_auction net id token = do
  payload ← fetch_json net (get_request ("/auctions/" ++ id) token) "Auction could not be loaded"
  auction_of payload

-- `payload.auctions || payload.assets || []`.
abbrev pub assets_of : Value → Result Value
assets_of payload =
    if is_nullish payload
    then err (type_error "auctions")
    else ok (or_else (member "auctions" payload) (or_else (member "assets" payload) (arr nil)))

-- `getAllAssets`.
unfoldable pub get_all_assets : Network → Value → Result Value
unfolding json_response
get_all_assets net token = do
  payload ← fetch_json net (get_request "/auctions" token) "Assets could not be loaded"
  assets_of payload

-- `n.toFixed(2)` of the double that is nearest to `n`.
unfoldable pub to_fixed_2 : Num → String
unfolding fixed_2
to_fixed_2 nan = "NaN"
to_fixed_2 (pos n) = fixed_2 n
to_fixed_2 (negsuc n) = "-" ++ fixed_2 (suc n)

abbrev pub bid_request : String → String → Value → Request
bid_request auction_id amount token = record {
  method = post;
  path = "/bids";
  authorization = some (bearer token);
  body = obj (
      field "auction_id" (str auction_id)
        (field "amount" (str (to_fixed_2 (num_of_text amount))) end));
}

-- `placeBid`.
unfoldable pub place_bid : Network → String → String → Value → Result Value
unfolding json_response
place_bid net auction_id amount token =
    fetch_json net (bid_request auction_id amount token) "Bid was rejected"

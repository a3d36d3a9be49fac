-- ===== src/Auth/Describe.antt =====
-- frontend/src/AuthScreen.jsx, lines 122 to 153: the words for an error.
pub mod Laws
use Prim.Native.String.{◌++◌}
use synora_hackathon.Prelude.{ℕ, Bool, false, ◌||◌, none, some, String, ◌==◌, if◌then◌else◌}
use synora_hackathon.Js.Number.{Num, pos, ceil_div, is_same}
use synora_hackathon.Js.Text.{is_empty}
use synora_hackathon.Js.Decimal.{text_of_num}
use synora_hackathon.Js.Value.{num, str, or_else, strict_eq, num_of}
use synora_hackathon.Api.Base.{Error}

unfoldable pub has_status : ℕ → Error → Bool
has_status n e = elim e.status [ none ↦ false | some m ↦ m == n ]

unfoldable pub has_code : String → Error → Bool
has_code name e = strict_eq e.code (str name)

-- `error.message || text`.
abbrev message_or : Error → String → String
message_or e text = if is_empty e.message then text else e.message

-- `n !== 1 ? 's' : ''`.
abbrev pub plural : Num → String
plural n = if is_same n (pos 1) then "" else "s"

-- The minutes to wait: `Math.ceil((error.retryAfter || 60) / 60)`.
unfoldable pub wait_minutes : Error → Num
unfolding num_of
wait_minutes e = ceil_div (num_of (or_else e.retry_after (num (pos 60)))) 60

abbrev pub too_many_attempts : Num → String
too_many_attempts minutes =
    "Too many sign-in attempts. For security, please wait "
    ++ (text_of_num minutes ++ (" minute" ++ (plural minutes ++ " before trying again.")))

-- `describeAuthError`.
unfoldable pub describe_auth_error : Error → String
unfolding wait_minutes text_of_num
describe_auth_error e =
    if has_status 429 e
    then too_many_attempts (wait_minutes e)
    else if has_status 503 e || has_code "AUTH_UNAVAILABLE" e
    then message_or e "Authentication service is temporarily unavailable. Please try again later."
    else if has_code "NETWORK_ERROR" e
    then "Network connection failed. Please check your internet connection and try again."
    else if has_code "SESSION_ERROR" e
    then "Session creation failed. Please try again."
    else if has_code "SESSION_STORAGE_ERROR" e
    then "Failed to store session. Your browser may have storage disabled. Please check your browser settings."
    else if has_code "MISSING_GOOGLE_CREDENTIAL" e
    then "Google authentication failed. No credential received from Google."
    else if has_code "INVALID_GOOGLE_CREDENTIAL" e
    then "Google authentication failed. Invalid credential received."
    else if has_code "VALIDATION_ERROR" e
    then message_or e "Invalid input data provided."
    else if has_code "POPUP_BLOCKED" e
    then "Google Sign-In popup was blocked. Please allow popups for this site and try again."
    else message_or e "Authentication failed. Please check your credentials and try again."

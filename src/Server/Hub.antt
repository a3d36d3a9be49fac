-- ===== src/Server/Hub.antt =====
-- backend/internal/websocket/hub.go, lines 27 to 30 and 59 to 85: the first frame of a connection. The checks of
-- the token, by a JWT library and by `Validate`, are the argument `accepts`.
use synora_hackathon.Prelude.{
  Bool, false, not, ◌||◌, Option, none, some, String, str_eq, if◌then◌else◌,
}
use synora_hackathon.Js.Text.{is_empty}
use synora_hackathon.Js.Value.{Value, undefined, null, str, obj, end, field, member}

-- `authFrame`.
pub record AuthFrame : Type 0 where
  pub type : String
  pub token : String

-- `ReadJSON` into a text field: a missing or `null` field leaves it empty, and no other value fits.
abbrev read_text : Value → Option String
read_text undefined = some ""
read_text null = some ""
read_text (str s) = some s
read_text _ = none

abbrev both : Option String → Option String → Option AuthFrame
both none token = none
both (some type) none = none
both (some type) (some token) = some (record { type = type; token = token })

-- `ReadJSON(&f)`, on an object whose field names are spelled as the struct's tags.
unfoldable pub read_frame : Value → Option AuthFrame
unfolding member
read_frame (obj fs) =
    both (read_text (member "type" (obj fs))) (read_text (member "token" (obj fs)))
read_frame _ = none

-- `authenticate`: whether the connection goes on.
unfoldable pub authenticate : (String → Bool) → Value → Bool
unfolding read_frame
authenticate accepts frame = elim (read_frame frame) [
  | none ↦ false
  | some f ↦ if not (str_eq f.type "AUTH") || is_empty f.token then false else accepts f.token
]

-- What `ServeHTTP` writes after the first frame; `reason` is the text of the error.
unfoldable pub answer : (String → Bool) → (reason : String) → Value → Value
unfolding authenticate
answer accepts reason frame =
    if authenticate accepts frame
    then obj (field "type" (str "AUTH_SUCCESS") end)
    else obj (
        field "type" (str "AUTH_ERROR")
          (field "code" (str "AUTH_REQUIRED") (field "message" (str reason) end)))

-- ===== src/Js/Value.antt =====
-- The values that a parsed JSON body can hold, with `undefined`, and what the client does with a
-- value that it knows nothing of: truth, `||`, property access, `===`, `String` and `Number`.
use Prim.Native.String.{[], ◌∷◌, ◌++◌}
use synora_hackathon.Prelude.{Bool, true, false, String, str_eq, if◌then◌else◌}
use synora_hackathon.Js.Number.{Num, nan, pos, is_truthy, is_same}
use synora_hackathon.Js.Decimal.{text_of_num, num_of_text}

mutual
  pub data Value : Type 0 where
    undefined : Value
    null : Value
    bool : Bool → Value
    num : Num → Value
    str : String → Value
    obj : Fields → Value
    arr : Items → Value

  -- The last field of a name is the one that counts, so a parsed object has each name once.
  pub data Fields : Type 0 where
    end : Fields
    field : String → Value → Fields → Fields

  pub data Items : Type 0 where
    nil : Items
    cons : Value → Items → Items

-- Whether `if (v)` takes its branch.
abbrev pub truthy : Value → Bool
truthy undefined = false
truthy null = false
truthy (bool b) = b
truthy (num n) = is_truthy n
truthy (str []) = false
truthy (str (c ∷ s)) = true
truthy (arr xs) = true
truthy (obj fs) = true

-- `a || b`.
abbrev pub or_else : Value → Value → Value
or_else a b = if truthy a then a else b

unfoldable pub find : String → Fields → Value
find key end = undefined
find key (field k v fs) = if str_eq k key then v else find key fs

-- `v?.key`, for a key that no string, number or array has.
unfoldable pub member : String → Value → Value
unfolding find
member key undefined = undefined
member key null = undefined
member key (bool b) = undefined
member key (num n) = undefined
member key (str s) = undefined
member key (arr xs) = undefined
member key (obj fs) = find key fs

-- Whether `v.key` throws a TypeError.
abbrev pub is_nullish : Value → Bool
is_nullish undefined = true
is_nullish null = true
is_nullish _ = false

-- `a === b`, where the two come from different parses: objects are then never the same.
abbrev pub strict_eq : Value → Value → Bool
strict_eq undefined undefined = true
strict_eq null null = true
strict_eq (bool true) (bool b) = b
strict_eq (bool false) (bool true) = false
strict_eq (bool false) (bool false) = true
strict_eq (num m) (num n) = is_same m n
strict_eq (str s) (str t) = str_eq s t
strict_eq _ _ = false

abbrev pub text_of_bool : Bool → String
text_of_bool true = "true"
text_of_bool false = "false"

-- `String(v)`; the elements of an array are joined by commas, empty where they are nullish.
unfoldable mutual
  unfolding text_of_num

  pub text_of : Value → String
  text_of undefined = "undefined"
  text_of null = "null"
  text_of (bool b) = text_of_bool b
  text_of (num n) = text_of_num n
  text_of (str s) = s
  text_of (arr xs) = join xs
  text_of (obj fs) = "[object Object]"

  pub join : Items → String
  join nil = []
  join (cons x xs) = piece x ++ join_more xs

  pub join_more : Items → String
  join_more nil = []
  join_more (cons x xs) = "," ++ (piece x ++ join_more xs)

  pub piece : Value → String
  piece undefined = []
  piece null = []
  piece (bool b) = text_of_bool b
  piece (num n) = text_of_num n
  piece (str s) = s
  piece (arr xs) = join xs
  piece (obj fs) = "[object Object]"

-- `Number(v)`.
unfoldable pub num_of : Value → Num
num_of undefined = nan
num_of null = pos 0
num_of (bool true) = pos 1
num_of (bool false) = pos 0
num_of (num n) = n
num_of (str s) = num_of_text s
num_of (arr xs) = num_of_text (join xs)
num_of (obj fs) = nan

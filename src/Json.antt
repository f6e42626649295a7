-- ===== src/Json.antt =====
-- The values of `serde_json` as the program matches on them. A number is an unsigned, a negative or a
-- floating-point number; the last is its bit pattern.
use ferrous_framework.Base.{ℕ, String, str_eq, Bool, Option, none, some, if◌then◌else◌}

pub data Number : Type 0 where
  unsigned negative float : ℕ → Number

mutual
  pub data Value : Type 0 where
    null : Value
    bool : Bool → Value
    number : Number → Value
    string : String → Value
    array : Items → Value
    object : Fields → Value

  pub data Items : Type 0 where
    nil : Items
    cons : Value → Items → Items

  pub data Fields : Type 0 where
    end : Fields
    field : String → Value → Fields → Fields

-- `Value::as_str`, `as_object`, `as_array`, `as_bool`
abbrev pub as_str : Value → Option String
as_str (string s) = some s
as_str _ = none

abbrev pub as_object : Value → Option Fields
as_object (object fs) = some fs
as_object _ = none

abbrev pub as_array : Value → Option Items
as_array (array xs) = some xs
as_array _ = none

abbrev pub as_bool : Value → Option Bool
as_bool (bool b) = some b
as_bool _ = none

-- `Map::get`
unfoldable pub get : String → Fields → Option Value
get k end = none
get k (field j v fs) = if str_eq j k then some v else get k fs

-- ===== src/MsgPack/Normalize.antt =====
-- `normalize` of src/msgpack_observation.rs. `ValueRef` is rmpv's, as far as the source matches on it: an integer is
-- positive or negative with its absolute value, a float is its bit pattern, a text that is not UTF-8 is `none`, and the
-- code of an extension is the bit pattern of an i8. `Printer` has what the standard library prints and converts.
use ferrous_framework.Base.{
  ℕ, suc, ◌+◌, ◌-◌, ◌*◌, ◌/◌, ◌%◌, ◌^◌, ◌==◌, String, str_eq, Bool, true, false, ◌&&◌, not, Option,
  none, some, List, [], ◌∷◌, Result, ok, err, ok_or, ensure, ltb, leb, length, take, drop, reverse,
  if◌then◌else◌, ◌>>=◌ as ◌⟫◌,
}
use ferrous_framework.Bytes.Hex.{hex_bytes}
use ferrous_framework.Bytes.Words.{to_le_bytes}
use ferrous_framework.Json.{
  Number, unsigned, negative, float, Value, null, bool, number, string, array, object, Items, nil,
  cons, Fields, end, field,
}
use ferrous_framework.LogProjection.Pointer.{str_lt}

pub data Error : Type 0 where
  too_deep invalid_utf8 invalid_timestamp unreachable : Error
  bad_budget over_budget bad_frame reserved_marker : Error

mutual
  pub data ValueRef : Type 0 where
    empty : ValueRef
    boolean : Bool → ValueRef
    positive negated : ℕ → ValueRef
    single double : ℕ → ValueRef
    text : Option String → ValueRef
    binary : List ℕ → ValueRef
    extension : ℕ → List ℕ → ValueRef
    values : Refs → ValueRef
    pairs : Pairs → ValueRef

  pub data Refs : Type 0 where
    no_refs : Refs
    ref : ValueRef → Refs → Refs

  pub data Pairs : Type 0 where
    no_pairs : Pairs
    pair : ValueRef → ValueRef → Pairs → Pairs

pub record Printer : Type 0 where
  pub print_number : Number → String
  pub print_i64 : ℕ → String
  pub widen : ℕ → ℕ

-- `Map::insert`: the keys are in order
unfoldable pub insert_field : String → Value → Fields → Fields
unfolding str_lt
insert_field k v end = field k v end
insert_field k v (field j w fs) =
    let later = insert_field k v fs in
    if str_eq j k
    then field k v fs
    else if str_lt k j
    then field k v (field j w fs)
    else field j w later

abbrev pub max_safe : ℕ
max_safe = 9007199254740991

-- the two objects with a `$fws` that have one other field
abbrev pub tagged : String → String → Value → Value
tagged name key v = object (field "$fws" (string name) (field key v end))

-- the exponent of an f64 is not all ones
abbrev pub is_finite : ℕ → Bool
is_finite bits = not (bits / 2 ^ 52 % 2048 == 2047)

-- `from_be_bytes`
unfoldable pub from_be_bytes : ℕ → List ℕ → ℕ
from_be_bytes high [] = high
from_be_bytes high (b ∷ bs) = from_be_bytes (high * 256 + b) bs

-- the code of an extension
abbrev pub signed_code : ℕ → Number
signed_code code = if ltb code 128 then unsigned code else negative (256 - code)

abbrev pub key_text : ValueRef → Option String
key_text (text key) = key
key_text _ = none

unfoldable pub member : String → List String → Bool
member k [] = false
member k (j ∷ js) = let later = member k js in if str_eq j k then true else later

abbrev pub is_new_key : List String → Option String → Bool
is_new_key seen none = false
is_new_key seen (some key) = not (str_eq key "$fws") && not (member key seen)

abbrev pub with_key : Option String → List String → List String
with_key none seen = seen
with_key (some key) seen = key ∷ seen

-- `plain`: every key is a text other than `$fws`, and no key stands twice
unfoldable pub is_plain : List String → Pairs → Bool
unfolding member
is_plain seen no_pairs = true
is_plain seen (pair k v ps) =
    is_new_key seen (key_text k) && is_plain (with_key (key_text k) seen) ps

module _ (p : Printer) where
  abbrev pub safe_or_tagged : Number → ℕ → Value
  safe_or_tagged n size =
      if leb size max_safe then number n else tagged "integer" "decimal" (string (p.print_number n))

  abbrev pub float_value : ℕ → Value
  float_value bits =
      if is_finite bits
      then number (float bits)
      else tagged "float64" "hex" (string (hex_bytes (reverse (to_le_bytes bits))))

  abbrev pub timestamp_value : ℕ → ℕ → Result Error Value
  timestamp_value seconds nanoseconds =
      if ltb nanoseconds 1000000000
      then ok (
          object (
            field "$fws" (string "timestamp") (
              field "nanoseconds" (number (unsigned nanoseconds))
                (field "seconds" (string (p.print_i64 seconds)) end))))
      else err invalid_timestamp

  -- the seconds and the nanoseconds of the three layouts
  unfoldable pub timestamp : List ℕ → Result Error Value
  unfolding from_be_bytes
  timestamp bytes =
      let packed = from_be_bytes 0 bytes in
      if length bytes == 4
      then timestamp_value packed 0
      else if length bytes == 8
      then timestamp_value (packed % 2 ^ 34) (packed / 2 ^ 34)
      else if length bytes == 12
      then timestamp_value (from_be_bytes 0 (drop 4 bytes)) (from_be_bytes 0 (take 4 bytes))
      else err invalid_timestamp

  abbrev pub extension_value : ℕ → List ℕ → Result Error Value
  extension_value code bytes =
      if code == 255
      then timestamp bytes
      else ok (
          object (
            field "$fws" (string "extension") (
              field "code" (number (signed_code code))
                (field "hex" (string (hex_bytes bytes)) end))))

  -- an object, or a list of the entries
  abbrev pub map_value : Bool → Result Error Fields → Result Error Items → Result Error Value
  map_value true fields entries = fields ⟫ λ fs. ok (object fs)
  map_value false fields entries = entries ⟫ λ es. ok (tagged "map" "entries" (array es))

  -- `ensure!(depth <= 64, ..)` before the rest
  abbrev pub within : ℕ → Result Error Value → Result Error Value
  within depth r = ensure (leb depth 64) too_deep ⟫ λ _. r

  unfoldable mutual
    unfolding timestamp hex_bytes is_plain insert_field to_le_bytes

    pub normalize : ℕ → ValueRef → Result Error Value
    normalize depth empty = within depth (ok null)
    normalize depth (boolean b) = within depth (ok (bool b))
    normalize depth (positive n) = within depth (ok (safe_or_tagged (unsigned n) n))
    normalize depth (negated n) = within depth (ok (safe_or_tagged (negative n) n))
    normalize depth (single bits) = within depth (ok (float_value (p.widen bits)))
    normalize depth (double bits) = within depth (ok (float_value bits))
    normalize depth (text s) = within depth (ok_or s invalid_utf8 ⟫ λ t. ok (string t))
    normalize depth (binary bytes) =
        within depth (ok (tagged "binary" "hex" (string (hex_bytes bytes))))
    normalize depth (extension code bytes) = within depth (extension_value code bytes)
    normalize depth (values xs) =
        within depth (normalize_items (suc depth) xs ⟫ λ ys. ok (array ys))
    normalize depth (pairs ps) = within depth (
        map_value (is_plain [] ps) (normalize_fields (suc depth) ps end)
          (normalize_entries (suc depth) ps))

    pub normalize_items : ℕ → Refs → Result Error Items
    normalize_items depth no_refs = ok nil
    normalize_items depth (ref x xs) =
        normalize depth x ⟫ λ y. normalize_items depth xs ⟫ λ ys. ok (cons y ys)

    -- the fields so far are the last argument
    pub normalize_fields : ℕ → Pairs → Fields → Result Error Fields
    normalize_fields depth no_pairs fs = ok fs
    normalize_fields depth (pair k v ps) fs = ok_or (key_text k) unreachable ⟫ λ key.
        normalize depth v ⟫ λ w. normalize_fields depth ps (insert_field key w fs)

    pub normalize_entries : ℕ → Pairs → Result Error Items
    normalize_entries depth no_pairs = ok nil
    normalize_entries depth (pair k v ps) = normalize depth k ⟫ λ a. normalize depth v ⟫ λ b.
        normalize_entries depth ps ⟫ λ es. ok (cons (array (cons a (cons b nil))) es)

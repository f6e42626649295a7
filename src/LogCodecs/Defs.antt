-- ===== src/LogCodecs/Defs.antt =====
-- `validate_log_codecs` and `stream_codec` of src/log_window.rs.
use ferrous_framework.Base.{
  String, str_eq, Bool, false, ◌||◌, Option, none, some, Result, ok, ok_or, ensure, if◌then◌else◌,
  ◌>>=◌ as ◌⟫◌,
}
use ferrous_framework.Json.{Value, null, Fields, end, field, as_str, as_object, get}
use ferrous_framework.LogIndex.Defs.{Codec, text, json, messagepack}

pub data Error : Type 0 where
  not_a_mapping unknown_stream unknown_codec : Error

-- `matches!(stream, "stdout" | "stderr")`
unfoldable pub is_stream : String → Bool
is_stream stream = str_eq stream "stdout" || str_eq stream "stderr"

-- the `match` of `stream_codec`
unfoldable pub codec_named : String → Option Codec
codec_named name =
    if str_eq name "text"
    then some text
    else if str_eq name "json"
    then some json
    else if str_eq name "messagepack"
    then some messagepack
    else none

-- `matches!(codec.as_str(), Some("text" | "json" | "messagepack"))`
abbrev pub names_codec : Option String → Bool
names_codec none = false
names_codec (some name) = str_eq name "text" || str_eq name "json" || str_eq name "messagepack"

-- the body of the loop
unfoldable pub check_codec : String → Value → Result Error (Unit {0})
check_codec stream codec = ensure (is_stream stream) unknown_stream ⟫ λ _.
    ensure (names_codec (as_str codec)) unknown_codec

unfoldable pub check_codecs : Fields → Result Error (Unit {0})
check_codecs end = ok tt
check_codecs (field stream codec rest) = check_codec stream codec ⟫ λ _. check_codecs rest

unfoldable pub validate_some : Value → Result Error Fields
validate_some value = ok_or (as_object value) not_a_mapping ⟫ λ map. check_codecs map ⟫ λ _. ok map

unfoldable pub validate_log_codecs : Option Value → Result Error Fields
validate_log_codecs none = ok end
validate_log_codecs (some null) = ok end
validate_log_codecs (some value) = validate_some value

-- the name of the codec: `none` where it is no text
abbrev pub name_in : Option Value → Option String
name_in none = some "text"
name_in (some value) = as_str value

unfoldable pub stream_codec : Fields → String → Result Error Codec
stream_codec codecs stream = ensure (is_stream stream) unknown_stream ⟫ λ _.
    ok_or (name_in (get stream codecs)) unknown_codec ⟫ λ name.
    ok_or (codec_named name) unknown_codec

-- ===== src/Examples/Codecs.antt =====
-- A mapping of src/log_window.rs that names a codec for one stream.
use ferrous_framework.Base.{true, ◌≡◌, refl, some, ok}
use ferrous_framework.Json.{string, object, Fields, end, field, get}
use ferrous_framework.LogIndex.Defs.{Codec}
use ferrous_framework.LogCodecs.Defs.{
  is_stream, codec_named, check_codec, check_codecs, validate_some, validate_log_codecs,
  stream_codec,
}
use ferrous_framework.LogCodecs.Checked.{Says, stream_codec-validate}

abbrev codecs : Fields
codecs = field "stderr" (string "json") end

accepted : validate_log_codecs (some (object codecs)) ≡ ok codecs
unfolding validate_log_codecs validate_some check_codecs check_codec is_stream codec_named
accepted = refl

stderr_is_stream : is_stream "stderr" ≡ true
unfolding is_stream
stderr_is_stream = refl

stream_codec-validate_example :
    (c : Codec) × (stream_codec codecs "stderr" ≡ ok c) × Says (get "stderr" codecs) c
stream_codec-validate_example =
    stream_codec-validate (some (object codecs)) codecs "stderr" accepted stderr_is_stream

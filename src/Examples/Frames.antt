-- ===== src/Examples/Frames.antt =====
-- A MessagePack frame, as src/msgpack_observation.rs decodes it.
use ferrous_framework.Base.{◌+◌, ◌≤◌, ◌≡◌, refl, true, some, [], ◌∷◌, ok}
use ferrous_framework.Json.{Value, string, array, object, nil, cons, end, field}
use ferrous_framework.Bytes.Hex.{hex_digit}
use ferrous_framework.MsgPack.Normalize.{
  ValueRef, positive, text, binary, values, pairs, no_refs, ref, no_pairs, pair, Printer, normalize,
}
use ferrous_framework.MsgPack.Frame.{DecodedFrame, complete, Reader, decode_frame}
use ferrous_framework.MsgPack.Shallow.{height, normalize-height}
use ferrous_framework.MsgPack.Decoded.{IsDecoded, decode_frame-IsDecoded}

abbrev printer : Printer
printer = record {
  print_number = λ _. "9007199254740993";
  print_i64 = λ _. "0";
  widen = λ bits. bits;
}

-- {"b": [9007199254740993], "a": a byte}
abbrev observed : ValueRef
observed = pairs (
    pair (text (some "b")) (values (ref (positive 9007199254740993) no_refs))
      (pair (text (some "a")) (binary (255 ∷ [])) no_pairs))

abbrev reader : Reader
reader = record { read_value = λ _. complete observed 1; validates = λ _. true }

abbrev as_json : Value
as_json = object (
    field "a" (object (field "$fws" (string "binary") (field "hex" (string "ff") end))) (
      field "b"
        (array (
          cons
            (object
              (field "$fws" (string "integer") (field "decimal" (string "9007199254740993") end)))
            nil))
        end))

observed_json : normalize printer 0 observed ≡ ok as_json
unfolding normalize hex_digit
observed_json = refl

normalize-height_example : 0 + height observed ≤ 64
normalize-height_example = normalize-height printer 0 observed as_json observed_json

abbrev frame : DecodedFrame
frame = record { value = as_json; consumed = 2 }

decode_frame_run : decode_frame printer reader (130 ∷ 161 ∷ 98 ∷ []) 16 ≡ ok (some frame)
unfolding decode_frame hex_digit
decode_frame_run = refl

decode_frame-IsDecoded_example : IsDecoded (130 ∷ 161 ∷ 98 ∷ []) 16 (some frame)
decode_frame-IsDecoded_example =
    decode_frame-IsDecoded printer reader (130 ∷ 161 ∷ 98 ∷ []) 16 (some frame) decode_frame_run

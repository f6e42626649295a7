-- ===== src/MsgPack/Frame.antt =====
-- `decode_frame` of src/msgpack_observation.rs. `Reader` is rmpv's decoder with its limit of nesting, which returns how
-- many bytes remain, and `validates` rmp-serde's over the bytes that were consumed.
use ferrous_framework.Base.{
  ℕ, ◌-◌, Bool, ◌&&◌, Option, none, some, List, Result, ok, err, ensure, leb, length, take, min,
  if◌then◌else◌, ◌>>=◌ as ◌⟫◌,
}
use ferrous_framework.Json.{Value}
use ferrous_framework.LogProjection.Defs.{parse_bytes}
use ferrous_framework.MsgPack.Normalize.{
  Error, bad_budget, over_budget, bad_frame, reserved_marker, ValueRef, Printer, normalize,
}

-- `DecodedFrame`
pub record DecodedFrame : Type 0 where
  pub value : Value
  pub consumed : ℕ

-- a value with how many bytes remain, the end of the input, or any other error
pub data ReadValue : Type 0 where
  complete : ValueRef → ℕ → ReadValue
  cut_off broken : ReadValue

pub record Reader : Type 0 where
  pub read_value : List ℕ → ReadValue
  pub validates : List ℕ → Bool

module _ (p : Printer) (reader : Reader) where
  abbrev pub frame_of : List ℕ → ValueRef → ℕ → Result Error (Option DecodedFrame)
  frame_of prefix v consumed =
      ensure (reader.validates (take consumed prefix)) reserved_marker ⟫ λ _.
      normalize p 0 v ⟫ λ w. ok (some (record { value = w; consumed = consumed }))

  abbrev pub from_read : ℕ → List ℕ → List ℕ → ReadValue → Result Error (Option DecodedFrame)
  from_read max_bytes data_bytes prefix (complete v remaining) =
      frame_of prefix v (length prefix - remaining)
  from_read max_bytes data_bytes prefix cut_off =
      if leb max_bytes (length data_bytes) then err over_budget else ok none
  from_read max_bytes data_bytes prefix broken = err bad_frame

  unfoldable pub decode_frame : List ℕ → ℕ → Result Error (Option DecodedFrame)
  unfolding normalize
  decode_frame data_bytes max_bytes =
      ensure (leb 1 max_bytes && leb max_bytes parse_bytes) bad_budget ⟫ λ _.
      let prefix = take (min (length data_bytes) max_bytes) data_bytes in
      from_read max_bytes data_bytes prefix (reader.read_value prefix)

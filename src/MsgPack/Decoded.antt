-- ===== src/MsgPack/Decoded.antt =====
-- What `decode_frame` of src/msgpack_observation.rs returns.
use ferrous_framework.Base.{
  ℕ, ◌-◌, ◌≤◌, ◌<◌, min, ◌≡◌, sym, ◌&&◌, Option, none, some, List, Result, ok, ensure, leb, length,
  take, length-take, arith, inl, inr, Bool-cases, >>=_elim,
}
use ferrous_framework.LogProjection.Defs.{parse_bytes}
use ferrous_framework.MsgPack.Normalize.{Error, bad_budget, reserved_marker, Printer, normalize}
use ferrous_framework.MsgPack.Frame.{
  DecodedFrame, ReadValue, complete, cut_off, broken, Reader, from_read, decode_frame,
}
use ferrous_framework.MsgPack.Observed.{IsObserved, normalize-IsObserved}

-- a frame lies within the data and the budget; without a frame there may come more data
abbrev pub IsDecoded : List ℕ → ℕ → Option DecodedFrame → Type 0
IsDecoded data_bytes max_bytes none = length data_bytes < max_bytes
IsDecoded data_bytes max_bytes (some f) =
    (f.consumed ≤ length data_bytes) × (f.consumed ≤ max_bytes) × IsObserved f.value

module _ (p : Printer) (reader : Reader) (data_bytes : List ℕ) (max_bytes : ℕ) where
  of_ok :
      (o o' : Option DecodedFrame)
      → ◌≡◌ {A = Result Error (Option DecodedFrame)} (ok o) (ok o')
      → IsDecoded data_bytes max_bytes o
      → IsDecoded data_bytes max_bytes o'
  of_ok o o' e h = let same : o ≡ o' = ground arith in rw (sym same) h

  from_read-IsDecoded :
      (r : ReadValue) (o : Option DecodedFrame)
      → from_read p reader max_bytes data_bytes
          (take (min (length data_bytes) max_bytes) data_bytes)
          r
        ≡ ok o
      → IsDecoded data_bytes max_bytes o
  from_read-IsDecoded (complete v remaining) o h =
      let prefix = take (min (length data_bytes) max_bytes) data_bytes in
      let consumed = length prefix - remaining in
      let len = length-take (min (length data_bytes) max_bytes) data_bytes in
      >>=_elim (IsDecoded data_bytes max_bytes o)
        (ensure (reader.validates (take consumed prefix)) reserved_marker) _ h
        λ _ _ h₁. >>=_elim (IsDecoded data_bytes max_bytes o) (normalize p 0 v) _ h₁ λ w e h₂.
          of_ok (some (record { value = w; consumed = consumed })) o h₂
            (omega (arith, len), omega (arith, len), normalize-IsObserved p 0 v w e)
  from_read-IsDecoded cut_off o h = elim (Bool-cases (leb max_bytes (length data_bytes))) [
    | inl e ↦ absurd (ground arith)
    | inr e ↦ of_ok none o (rw e at h) (ground arith)
  ]
  from_read-IsDecoded broken o h = absurd (ground arith)

  -- When `decode_frame` returns a frame, then it lies within the data and within the budget, every
  -- number of its value keeps 53 bits of precision or is a finite float, and every `$fws` of an
  -- object in it is the name of an observation; when it returns none, the data are shorter than
  -- the budget.
  pub decode_frame-IsDecoded :
      (o : Option DecodedFrame)
      → decode_frame p reader data_bytes max_bytes ≡ ok o
      → IsDecoded data_bytes max_bytes o
  unfolding decode_frame
  decode_frame-IsDecoded o h =
      >>=_elim (IsDecoded data_bytes max_bytes o)
        (ensure (leb 1 max_bytes && leb max_bytes parse_bytes) bad_budget) _ h
        λ _ _ h₁.
          from_read-IsDecoded
            (reader.read_value (take (min (length data_bytes) max_bytes) data_bytes)) o h₁

-- ===== src/LogIndex/Ops.antt =====
-- `refresh`, `refresh_inner`, `validate_snapshot`, `offset` and `read` of src/log_window.rs.
-- A section's `decode` is `decode_frame(data, PARSE_BYTES)`: how many bytes the first frame takes,
-- `none` where the frame is not complete.
use ferrous_framework.Base.{
  ℕ, zero, suc, ◌+◌, ◌-◌, ◌*◌, true, false, ◌&&◌, ◌||◌, not, Option, none, some, List, [], ◌∷◌,
  ◌++◌, Result, ok, err, ltb, leb, ◌==◌, if◌then◌else◌, length, take, drop, min,
}
use ferrous_framework.Base.{◌>>=◌ as ◌⟫◌}
use ferrous_framework.Base.Action.{raise, lift, modify, continue, ◌>>=◌, ◌>>◌}
use ferrous_framework.Bytes.Compare.{bytes_eq}
use ferrous_framework.Bytes.Words.{read_word}
use ferrous_framework.LogIndex.Defs.{
  is_messagepack, Error, io, changed_indexing, generation_changed, changed_reading, out_of_rounds,
  Stat, Source, World, LineIndex, M, pair_eq, is_identity, identity_of, mtime_of, scan_bytes, or_io,
  reset_token, open_stat, read_some, must_restart, restart, Marks, mark, scan_lines,
}

abbrev pub Decoder : Type 0
Decoder = List ℕ → Result Error (Option ℕ)

abbrev pub marks_of : LineIndex → Marks
marks_of s = record { last_end = s.last_end; complete = s.complete; offsets = [] }

-- `write_all(&offsets)` and the end of the round; the marks are in `self` whether it fails or not
unfoldable pub write_marks : Source → ℕ → Marks → M (Unit {0})
write_marks src n m s =
    let noted = record s { last_end = m.last_end; complete = m.complete } in
    if src.index_ok
    then (ok tt, record noted { index = s.index ++ m.offsets; size = s.size + n })
    else (err io, noted)

-- one buffer of a text or JSON log
unfoldable pub index_lines : Source → List ℕ → M (Unit {0})
index_lines src chunk s = write_marks src (length chunk) (scan_lines s.size chunk (marks_of s)) s

module _ (decode : Decoder) where
  -- The loop over the complete frames of `pending`; the result has the bytes that are left. The
  -- rounds are bounded by the number of bytes, since a frame takes one byte at least.
  unfoldable pub frames : ℕ → List ℕ → Marks → Result Error (List ℕ) × Marks
  frames rounds [] m = (ok [], m)
  frames zero (b ∷ bs) m = (err out_of_rounds, m)
  frames (suc rounds) (b ∷ bs) m = elim (decode (b ∷ bs)) [
    | err e ↦ (err e, m)
    | ok none ↦ (ok (b ∷ bs), m)
    | ok (some k) ↦ frames rounds (drop k (b ∷ bs)) (mark (m.last_end + k) m)
  ]

  -- one buffer of a MessagePack log
  unfoldable pub index_frames : Source → List ℕ → M (Unit {0})
  index_frames src chunk s =
      let joined = s.pending ++ chunk in
      let (r, m) = frames (length joined) joined (marks_of s) in
      elim r [
        | err e ↦
            (err e, record s { pending = joined; last_end = m.last_end; complete = m.complete })
        | ok rest ↦ write_marks src (length chunk) m (record s { pending = rest })
      ]

  unfoldable pub index_chunk : Source → List ℕ → M (Unit {0})
  index_chunk src chunk s =
      if is_messagepack s.codec then index_frames src chunk s else index_lines src chunk s

  abbrev pub index_read : Source → List ℕ → M (Unit {0})
  index_read src [] = raise changed_indexing
  index_read src (b ∷ bs) = index_chunk src (b ∷ bs)

  -- `read`, `ensure!(n > 0)`, and the work on the buffer
  unfoldable pub index_round : Source → ℕ → M (Unit {0})
  index_round src len s =
      continue (read_some src s.size (min (len - s.size) scan_bytes), s) (index_read src)

  -- The `while` loop. Every round indexes one byte at least, so `len` rounds are enough.
  unfoldable pub index_rest : ℕ → Source → ℕ → M (Unit {0})
  index_rest zero src len s = if ltb s.size len then (err out_of_rounds, s) else (ok tt, s)
  index_rest (suc rounds) src len s = elim (ltb s.size len) [
    | false ↦ (ok tt, s)
    | true ↦ continue (index_round src len s) (λ _ s'. index_rest rounds src len s')
  ]

-- the `if` of `refresh_inner`
unfoldable pub restart_if : Source → Stat → List ℕ → M (Unit {0})
restart_if src st token s = if must_restart s st token then restart src s else (ok tt, s)

-- `if result.is_err() { self.identity = None }`
abbrev pub forget_on_error :
    Result Error (Unit {0}) × LineIndex → Result Error (Unit {0}) × LineIndex
forget_on_error (ok u, s) = (ok u, s)
forget_on_error (err e, s) = (err e, record s { identity = none })

-- The two conditions of `validate_snapshot`, which `read` repeats on its own handle.
unfoldable pub same_log : LineIndex → Stat → Result Error (Unit {0})
same_log s st =
    if is_identity s.identity (identity_of st) && leb s.size st.len
    then (if not (st.len == s.size) || pair_eq (mtime_of st) s.mtime
        then ok tt
        else err changed_reading)
    else err generation_changed

unfoldable pub same_token : LineIndex → List ℕ → Result Error (Unit {0})
same_token s token = if bytes_eq token s.reset then ok tt else err generation_changed

-- `validate_snapshot`: `metadata` at tick `t`, the marker at `t + 1`
unfoldable pub validate_snapshot : World → ℕ → LineIndex → Result Error (Unit {0})
validate_snapshot w t s = open_stat (w t) ⟫ λ st.
    reset_token (w (t + 1)) ⟫ λ token. same_token s token ⟫ λ _. same_log s st

-- `offset`: the end of the record `ordinal - 1`
unfoldable pub offset : LineIndex → ℕ → Result Error ℕ
offset s zero = ok 0
offset s (suc n) = if ltb s.complete (suc n) then ok s.size else or_io (read_word s.index (n * 8))

-- `seek` and `read_exact`
unfoldable pub read_exact : Source → ℕ → ℕ → Result Error (List ℕ)
read_exact src start count =
    let found = take count (drop start src.content) in
    if length found == count then ok found else err io

-- `read`: the marker at tick `t`, the handle at `t + 1`, and `validate_snapshot` from `t + 2`
unfoldable pub read : World → ℕ → LineIndex → ℕ → ℕ → Result Error (List ℕ)
read w t s start count = reset_token (w t) ⟫ λ token. same_token s token ⟫ λ _.
    open_stat (w (t + 1)) ⟫ λ st. same_log s st ⟫ λ _.
    read_exact (w (t + 1)) start count ⟫ λ found. validate_snapshot w (t + 2) s ⟫ λ _. ok found

-- the end of `refresh_inner`: the time is noted and the snapshot validated, from tick `t + 2`
unfoldable pub conclude : World → ℕ → Stat → M (Unit {0})
conclude w t st s =
    let noted = record s { mtime = mtime_of st } in (validate_snapshot w (t + 2) noted, noted)

module _ (decode : Decoder) where
  -- `refresh_inner` behind its first three accesses
  unfoldable pub refresh_from : World → ℕ → Stat → List ℕ → M (Unit {0})
  refresh_from w t st token = do
    restart_if (w t) st token
    modify (λ s. record s { identity = some (identity_of st); reset = token })
    index_rest decode st.len (w t) st.len
    conclude w t st

  -- `refresh_inner`: the handle at tick `t`, the marker at `t + 1`, `validate_snapshot` from `t + 2`
  unfoldable pub refresh_inner : World → ℕ → M (Unit {0})
  refresh_inner w t = do
    st ← lift (open_stat (w t))
    token ← lift (reset_token (w (t + 1)))
    refresh_from w t st token

  -- `refresh`
  unfoldable pub refresh : World → ℕ → M (Unit {0})
  refresh w t s = forget_on_error (refresh_inner w t s)

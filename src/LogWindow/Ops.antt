-- ===== src/LogWindow/Ops.antt =====
-- `raw` and `window` of src/log_window.rs. The first tick is that of `refresh`, which takes four; each
-- `read` takes four more, and the last `validate_snapshot` two.
use ferrous_framework.Base.{
  ℕ, zero, suc, ◌+◌, ◌-◌, ◌*◌, String, str_eq, Bool, true, false, ◌&&◌, not, Option, none, some,
  List, [], ◌∷◌, ◌++◌, reverse, Result, ok, err, ltb, leb, ◌==◌, if◌then◌else◌, length, min,
  ◌>>=◌ as ◌⟫◌, ensure,
}
use ferrous_framework.Base.Action.{lift, gets, ◌>>=◌, ◌>>◌}
use ferrous_framework.LogIndex.Defs.{
  Codec, is_messagepack, Error, stale_generation, invalid_raw_bounds, invalid_raw_reference,
  invalid_window_budget, codec_mismatch, invalid_navigation, budget_too_small, World, LineIndex, M,
  scan_bytes,
}
use ferrous_framework.LogIndex.Ops.{Decoder, validate_snapshot, offset, read, refresh}
use ferrous_framework.LogProjection.Defs.{
  RawReference, RecordProjection, WindowAction, tail, older, newer, parse_bytes, record_bytes,
  saturating_add,
}
use ferrous_framework.LogProjection.Project.{preview_text, project_record}
use ferrous_framework.LogWindow.Defs.{LogWindow, Projector}

abbrev pub response_bytes : ℕ
response_bytes = 1048576

-- `reference.byte_start.saturating_add(offset).min(reference.byte_end)`, on `u64`
abbrev pub raw_start : RawReference → ℕ → ℕ
raw_start ref off = min (saturating_add ref.byte_start off) ref.byte_end

-- `raw` behind its `refresh`
unfoldable pub raw_read : World → ℕ → RawReference → ℕ → ℕ → LineIndex → Result Error (List ℕ)
raw_read w t ref off limit s = ensure (str_eq ref.generation s.generation) stale_generation ⟫ λ _.
    ensure (leb ref.byte_start ref.byte_end && leb ref.byte_end s.size) invalid_raw_reference ⟫ λ _.
    read w t s (raw_start ref off) (min (ref.byte_end - raw_start ref off) limit)

-- `raw` behind its check of the limit
unfoldable pub raw_fresh : Decoder → World → ℕ → RawReference → ℕ → ℕ → M (List ℕ)
raw_fresh decode w t ref off limit = do
  refresh decode w t
  λ s. (raw_read w (t + 4) ref off limit s, s)

unfoldable pub raw : Decoder → World → ℕ → RawReference → ℕ → ℕ → M (List ℕ)
raw decode w t ref off limit = do
  lift (ensure (leb 1 limit && leb limit scan_bytes) invalid_raw_bounds)
  raw_fresh decode w t ref off limit

abbrev pub is_backward : WindowAction → Bool
is_backward tail = true
is_backward older = true
is_backward _ = false

abbrev pub is_shifted : WindowAction → Bool
is_shifted older = true
is_shifted newer = true
is_shifted _ = false

-- `total`: the complete records, and the unfinished one of a log that is no MessagePack
unfoldable pub total_of : LineIndex → ℕ
total_of s =
    s.complete + (if ltb 0 (s.size - s.last_end) && not (is_messagepack s.codec) then 1 else 0)

abbrev pub boundary_of : WindowAction → ℕ → ℕ → ℕ
boundary_of tail cur total = total
boundary_of _ cur total = min cur total

-- `start` and `stop`
abbrev pub span_of : WindowAction → ℕ → ℕ → ℕ → ℕ → ℕ × ℕ
span_of action cur count shift total =
    let boundary = boundary_of action cur total in
    let size = if is_shifted action then min count shift else count in
    if is_backward action
    then (boundary - size, boundary)
    else (boundary, min total (saturating_add boundary size))

-- `n` numbers from `start` on
unfoldable pub range_from : ℕ → ℕ → List ℕ
range_from start zero = []
range_from start (suc n) = start ∷ range_from (suc start) n

-- the order in which the records are read
unfoldable pub indices : Bool → ℕ → ℕ → List ℕ
indices backward start stop =
    let up = range_from start (stop - start) in if backward then reverse up else up

module _ (p : Projector) (w : World) (codec : Codec) (s : LineIndex) where
  -- the record at one ordinal, read at tick `t`
  unfoldable pub record_at : ℕ → ℕ → Result Error RecordProjection
  record_at t ordinal = offset s ordinal ⟫ λ byte_start. offset s (ordinal + 1) ⟫ λ byte_end.
      let ref : RawReference = record {
        generation = s.generation;
        byte_start = byte_start;
        byte_end = byte_end;
      } in
      if ltb parse_bytes (byte_end - byte_start)
      then (read w t s byte_start (record_bytes + 4) ⟫ λ found. ok (record {
        text = preview_text (p.serde.lossy found) record_bytes;
        raw = ref;
        omissions = [];
        diagnostic = some "parse_budget_exceeded";
      }))
      else (read w t s byte_start (byte_end - byte_start) ⟫ λ found.
          project_record p.serde found ref codec record_bytes parse_bytes)

-- `result` with one record more
unfoldable pub extend : Bool → ℕ → ℕ → ℕ → RecordProjection → LogWindow → LogWindow
extend backward start stop ordinal r win =
    let first = if backward then ordinal else start in
    let last = if backward then stop else ordinal + 1 in
    record win {
      records = if backward then r ∷ win.records else win.records ++ r ∷ [];
      start = first;
      end = last;
      at_start = first == 0;
      at_tail = last == win.total;
    }

-- `Vec::remove(0)` and `Vec::pop` on the records
abbrev pub drop_first {ℓ} : {A : Type ℓ} → List A → List A
drop_first [] = []
drop_first (x ∷ xs) = xs

abbrev pub drop_last {ℓ} : {A : Type ℓ} → List A → List A
drop_last [] = []
drop_last (x ∷ []) = []
drop_last (x ∷ y ∷ xs) = x ∷ drop_last (y ∷ xs)

abbrev pub is_empty {ℓ} : {A : Type ℓ} → List A → Bool
is_empty [] = true
is_empty (x ∷ xs) = false

-- The record that does not fit is taken out again, and the four fields are as they were.
unfoldable pub undo : Bool → LogWindow → LogWindow → LogWindow
undo backward previous win = record win {
  records = if backward then drop_first win.records else drop_last win.records;
  start = previous.start;
  end = previous.end;
  at_start = previous.at_start;
  at_tail = previous.at_tail;
}

-- the end of the loop at a record beyond the budget
unfoldable pub over_budget : Bool → LogWindow → LogWindow → Result Error LogWindow
over_budget backward previous win =
    let kept = undo backward previous win in
    if is_empty kept.records then err budget_too_small else ok kept

module _ (p : Projector) (w : World) (codec : Codec) (s : LineIndex) (backward : Bool)
    (start stop max_bytes : ℕ) where
  -- the loop over the ordinals
  unfoldable pub fill : ℕ → List ℕ → LogWindow → Result Error LogWindow
  fill t [] win = ok win
  fill t (o ∷ os) win = record_at p w codec s t o ⟫ λ r.
      let next = extend backward start stop o r win in
      let rest = fill (t + 4) os next in
      p.serialized next ⟫ λ n. if ltb max_bytes n then over_budget backward win next else rest

-- `window` behind its `refresh`, from tick `t`
unfoldable pub window_read :
    Projector
    → World
    → ℕ
    → WindowAction
    → ℕ
    → ℕ
    → ℕ
    → Codec
    → ℕ
    → Option String
    → LineIndex
    → Result Error LogWindow
window_read p w t action cur count shift codec max_bytes wanted s =
    ensure (elim wanted [ none ↦ true | some g ↦ str_eq g s.generation ]) stale_generation ⟫ λ _.
    ensure (ltb 0 shift) invalid_navigation ⟫ λ _.
    let total = total_of s in
    let boundary = boundary_of action cur total in
    let backward = is_backward action in
    let (start, stop) = span_of action cur count shift total in
    let order = indices backward start stop in
    let empty : LogWindow = record {
      generation = s.generation;
      start = boundary;
      end = boundary;
      total = total;
      at_start = boundary == 0;
      at_tail = boundary == total;
      records = [];
      pending_bytes = s.size - s.last_end;
    } in
    fill p w codec s backward start stop max_bytes t order empty ⟫ λ win.
    validate_snapshot w (t + 4 * length order) s ⟫ λ _. ok win

abbrev pub same_framing : Codec → Codec → Bool
same_framing a b = if is_messagepack a then is_messagepack b else not (is_messagepack b)

-- `window` behind its checks of the arguments
unfoldable pub window_fresh :
    Decoder
    → Projector
    → World
    → ℕ
    → WindowAction
    → ℕ
    → ℕ
    → ℕ
    → Codec
    → ℕ
    → Option String
    → M LogWindow
window_fresh decode p w t action cur count shift codec max_bytes wanted = do
  refresh decode w t
  λ s. (window_read p w (t + 4) action cur count shift codec max_bytes wanted s, s)

unfoldable pub window :
    Decoder
    → Projector
    → World
    → ℕ
    → WindowAction
    → ℕ
    → ℕ
    → ℕ
    → Codec
    → ℕ
    → Option String
    → M LogWindow
window decode p w t action cur count shift codec max_bytes wanted = do
  lift (
      ensure (leb 1 count && leb count 1000 && leb 512 max_bytes && leb max_bytes response_bytes)
        invalid_window_budget)
  own ← gets (λ s. s.codec)
  lift (ensure (same_framing codec own) codec_mismatch)
  window_fresh decode p w t action cur count shift codec max_bytes wanted

-- ===== src/LogWindow/Window.antt =====
-- `window` of src/log_window.rs: what a window that is returned holds.
use mathlib.Core.Path.{subst}
use ferrous_framework.Base.{
  ℕ, ◌+◌, ◌-◌, ◌≤◌, ◌≡◌, refl, ap, Bool, true, false, Option, some, none, String, str_eq, [],
  length, arith, Result, ok, err, inl, ltb, ◌==◌, leb, ◌&&◌, min, >>=_elim, ◌>>=◌ as ◌⟫◌,
  if◌then◌else◌, ensure,
}
use ferrous_framework.Base.Action.{continue, continue_elim}
use ferrous_framework.LogIndex.Defs.{
  is_messagepack, Codec, Error, World, LineIndex, M, stale_generation, invalid_navigation,
  invalid_window_budget, codec_mismatch,
}
use ferrous_framework.LogIndex.Ops.{Decoder, refresh}
use ferrous_framework.LogIndex.Refresh.{Continues, Refreshed, refresh-Refreshed}
use ferrous_framework.LogProjection.Defs.{WindowAction, tail, older, newer, current}
use ferrous_framework.LogWindow.Defs.{LogWindow, Projector}
use ferrous_framework.LogWindow.Ops.{
  fill, indices, total_of, boundary_of, span_of, is_backward, window_read, window_fresh, window,
  response_bytes, same_framing,
}
use ferrous_framework.LogWindow.Spanned.{Spanned}
use ferrous_framework.LogWindow.Fill.{Fits, fill-Forward, fill-Backward}

-- a backward window ends at the boundary, a forward one begins there
abbrev pub Anchored : WindowAction → ℕ → LogWindow → Type 0
Anchored action boundary win = (if is_backward action then win.end else win.start) ≡ boundary

-- what `window` promises of the window that it returns
pub record Shows (p : Projector) (w : World) (codec : Codec) (action : WindowAction)
    (cur count max_bytes : ℕ) (s : LineIndex) (win : LogWindow) : Type 0 where
  pub spanned : Spanned p w codec s (total_of s) win
  pub fits : Fits p max_bytes win
  pub short : length win.records ≤ count
  pub anchored : Anchored action (boundary_of action cur (total_of s)) win

first_ok :
    (m : Result Error LogWindow) (v : Result Error (Unit {0})) {win : LogWindow}
    → (m ⟫ λ found. v ⟫ λ _. ok found) ≡ ok win
    → m ≡ ok win
first_ok (ok found) (ok u) h = h
first_ok (ok found) (err e) h = absurd (ground arith)
first_ok (err e) v h = absurd (ground arith)

window-fresh :
    (decode : Decoder) (p : Projector) (w : World) (t : ℕ) (action : WindowAction)
    (cur count shift : ℕ) (codec : Codec) (max_bytes : ℕ) (wanted : Option String) (s : LineIndex)
    {win : LogWindow} {s' : LineIndex}
    → window decode p w t action cur count shift codec max_bytes wanted s ≡ (ok win, s')
    → window_fresh decode p w t action cur count shift codec max_bytes wanted s ≡ (ok win, s')
unfolding window
window-fresh decode p w t action cur count shift codec max_bytes wanted s {win} {s'} h =
    second (same_framing codec s.codec)
      (first (leb 1 count && leb count 1000 && leb 512 max_bytes && leb max_bytes response_bytes) h)
  where
    fresh : M LogWindow
    fresh = window_fresh decode p w t action cur count shift codec max_bytes wanted

    second :
        (b : Bool)
        → continue {B = LogWindow} (ensure b codec_mismatch, s) (λ _ y. fresh y) ≡ (ok win, s')
        → fresh s ≡ (ok win, s')
    second true q = q
    second false q = absurd (ground arith)

    first :
        (a : Bool)
        → continue {B = LogWindow}
            (ensure a invalid_window_budget, s)
            (λ _ x.
              continue (ensure (same_framing codec x.codec) codec_mismatch, x) (λ _ y. fresh y))
          ≡ (ok win, s')
        → continue {B = LogWindow}
            (ensure (same_framing codec s.codec) codec_mismatch, s)
            (λ _ y. fresh y)
          ≡ (ok win, s')
    first true q = q
    first false q = absurd (ground arith)

module _ (p : Projector) (w : World) (codec : Codec) (s : LineIndex) where
  -- the window before its first record
  abbrev empty_at : ℕ → ℕ → ℕ → LogWindow
  empty_at total boundary pending = record {
    generation = s.generation;
    start = boundary;
    end = boundary;
    total = total;
    at_start = boundary == 0;
    at_tail = boundary == total;
    records = [];
    pending_bytes = pending;
  }

  empty-Spanned :
      (total boundary pending : ℕ)
      → boundary ≤ total
      → Spanned p w codec s total (empty_at total boundary pending)
  empty-Spanned total boundary pending le = record {
    counted = omega arith;
    within = le;
    total_is = refl;
    at_start_is = refl;
    at_tail_is = refl;
    records_at = tt;
    generation = refl;
  }

  abbrev Found : ℕ → ℕ → ℕ → LogWindow → Type 0
  Found total count max_bytes win =
      Spanned p w codec s total win × Fits p max_bytes win × (length win.records ≤ count)

  -- the loop, for each direction, over at most `size` records
  Found-backward :
      (total boundary size count max_bytes t pending : ℕ) {win : LogWindow}
      → boundary ≤ total
      → size ≤ count
      → fill p w codec s true
          (boundary - size)
          boundary
          max_bytes
          t
          (indices true (boundary - size) boundary)
          (empty_at total boundary pending)
        ≡ ok win
      → Found total count max_bytes win × (win.end ≡ boundary)
  unfolding indices
  Found-backward total boundary size count max_bytes t pending {win} le short h =
      let out =
        fill-Backward p w codec s total (boundary - (boundary - size)) (boundary - size) boundary
          max_bytes t (boundary - size) (empty_at total boundary pending)
          (empty-Spanned total boundary pending le) (inl refl) (omega arith) refl h in
      ((out.0, out.1, omega (arith, out.0.counted, out.2, out.3)), out.2)

  Found-forward :
      (total boundary stop size count max_bytes t pending : ℕ) {win : LogWindow}
      → boundary ≤ total
      → stop ≤ total
      → stop ≤ boundary + size
      → size ≤ count
      → fill p w codec s false boundary stop max_bytes t
          (indices false boundary stop)
          (empty_at total boundary pending)
        ≡ ok win
      → Found total count max_bytes win × (win.start ≡ boundary)
  unfolding indices
  Found-forward total boundary stop size count max_bytes t pending {win} le within near short h =
      let out =
        fill-Forward p w codec s total (stop - boundary) boundary stop max_bytes t boundary
          (empty_at total boundary pending) (empty-Spanned total boundary pending le) (inl refl)
          refl refl (omega arith) h in
      ((out.0, out.1, omega (arith, out.0.counted, out.2, out.3)), out.2)

  fill-Shows :
      (action : WindowAction) (cur count shift max_bytes t : ℕ) {win : LogWindow}
      → (let total = total_of s in
          let span = span_of action cur count shift total in
          fill p w codec s
            (is_backward action)
            span.0
            span.1
            max_bytes
            t
            (indices (is_backward action) span.0 span.1)
            (empty_at total (boundary_of action cur total) (s.size - s.last_end))
          ≡ ok win)
      → Shows p w codec action cur count max_bytes s win
  fill-Shows tail cur count shift max_bytes t h =
      let out =
        Found-backward (total_of s) (total_of s) count count max_bytes t (s.size - s.last_end)
          (omega arith) (omega arith) h in
      record { spanned = out.0.0; fits = out.0.1; short = out.0.2; anchored = out.1 }
  fill-Shows older cur count shift max_bytes t h =
      let out =
        Found-backward (total_of s) (min cur (total_of s)) (min count shift) count max_bytes t
          (s.size - s.last_end) (omega arith) (omega arith) h in
      record { spanned = out.0.0; fits = out.0.1; short = out.0.2; anchored = out.1 }
  fill-Shows newer cur count shift max_bytes t h =
      let out =
        Found-forward (total_of s) (min cur (total_of s)) _ (min count shift) count max_bytes t
          (s.size - s.last_end) (omega arith) (omega arith) (omega arith) (omega arith) h in
      record { spanned = out.0.0; fits = out.0.1; short = out.0.2; anchored = out.1 }
  fill-Shows current cur count shift max_bytes t h =
      let out =
        Found-forward (total_of s) (min cur (total_of s)) _ count count max_bytes t
          (s.size - s.last_end) (omega arith) (omega arith) (omega arith) (omega arith) h in
      record { spanned = out.0.0; fits = out.0.1; short = out.0.2; anchored = out.1 }

  window_read-Shows :
      (t : ℕ) (action : WindowAction) (cur count shift max_bytes : ℕ) (wanted : Option String)
      {win : LogWindow}
      → window_read p w t action cur count shift codec max_bytes wanted s ≡ ok win
      → Shows p w codec action cur count max_bytes s win
  unfolding window_read
  window_read-Shows t action cur count shift max_bytes wanted {win} h =
      let P = Shows p w codec action cur count max_bytes s win in
      >>=_elim P
        (ensure (elim wanted [ none ↦ true | some g ↦ str_eq g s.generation ]) stale_generation) _ h
        λ _ _ h1.
          >>=_elim P (ensure (ltb 0 shift) invalid_navigation) _ h1
            λ _ _ h2. fill-Shows action cur count shift max_bytes t (first_ok _ _ h2)

  -- When `window` returns a window of a text or JSON log, from an index that continues the log,
  -- then the index was refreshed, and the window holds the records of a run of neighbouring
  -- ordinals within the total, each with the raw reference between its two offsets and with what
  -- `project_record` makes of exactly the bytes there, within its bounds, or, where these are more
  -- than the parser takes, with the beginning of them as text, cut between two characters, and the
  -- diagnostic `parse_budget_exceeded`; there are at most `count` records, anchored at the
  -- boundary of the action, with `at_start` and `at_tail` telling the truth; it is empty or its
  -- serialization fits `max_bytes`.
  pub window-Shows :
      (decode : Decoder) (t : ℕ) (action : WindowAction) (cur count shift max_bytes : ℕ)
      (wanted : Option String) (s0 : LineIndex) {win : LogWindow}
      → is_messagepack s0.codec ≡ false
      → Continues (w t) s0
      → window decode p w t action cur count shift codec max_bytes wanted s0 ≡ (ok win, s)
      → Refreshed w t s × Shows p w codec action cur count max_bytes s win
  unfolding window_fresh
  window-Shows decode t action cur count shift max_bytes wanted s0 {win} framing c h =
      let P = Refreshed w t s × Shows p w codec action cur count max_bytes s win in
      continue_elim P (refresh decode w t s0) _
        (window-fresh decode p w t action cur count shift codec max_bytes wanted s0 h)
        λ _ s3 fresh h3.
          let same : s3 ≡ s = ap (λ o. o.1) h3 in
          let shown : window_read p w (t + 4) action cur count shift codec max_bytes wanted s
              ≡ ok win =
            subst
              (λ x.
                window_read p w (t + 4) action cur count shift codec max_bytes wanted x ≡ ok win)
              same (ap (λ o. o.0) h3) in
          (
            subst (Refreshed w t) same (refresh-Refreshed decode w t s0 framing c fresh),
            window_read-Shows (t + 4) action cur count shift max_bytes wanted shown,
          )

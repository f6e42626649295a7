-- ===== src/LogProjection/Viewport.antt =====
-- What `window_start` of src/log_projection.rs promises: the viewport stays inside the log, and no
-- record is skipped between two neighbouring viewports.
use ferrous_framework.Base.{ℕ, ◌+◌, ◌-◌, ◌≤◌, ◌<◌, ◌≡◌, ok, arith}
use ferrous_framework.LogProjection.Defs.{
  WindowAction, tail, older, newer, current, window_start, usize_max,
}

-- When `window_start` returns a start, for any action, it is at most `total - count`, and the
-- count and the shift are positive and the shift is at most the count.
pub window_start-bounds :
    (total cur count shift : ℕ) (action : WindowAction) (start : ℕ)
    → window_start total cur count shift action ≡ ok start
    → (start ≤ total - count) × (0 < count) × (0 < shift) × (shift ≤ count)
unfolding window_start
window_start-bounds total cur count shift tail start h = ground arith
window_start-bounds total cur count shift older start h = ground arith
window_start-bounds total cur count shift newer start h = ground arith
window_start-bounds total cur count shift current start h = ground arith

-- A step to newer records and a step back, in a log of at most `usize::MAX` records, go from a
-- viewport to one that begins within it or directly behind it, strictly later unless it was the
-- last, and back to the first one or before it: no record is skipped.
pub window_start-overlap :
    (total cur count shift : ℕ) (start next back : ℕ)
    → total ≤ usize_max
    → window_start total cur count shift current ≡ ok start
    → window_start total start count shift newer ≡ ok next
    → window_start total next count shift older ≡ ok back
    → (start ≤ next)
      × (next ≤ start + count)
      × (back ≤ start)
      × (start < total - count → start < next)
unfolding window_start
window_start-overlap total cur count shift start next back fits h1 h2 h3 = ground arith

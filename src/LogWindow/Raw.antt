-- ===== src/LogWindow/Raw.antt =====
-- `raw` of src/log_window.rs: a raw read stays inside its reference and its limit.
use mathlib.Core.Path.{subst}
use ferrous_framework.Base.{
  ℕ, ◌+◌, ◌-◌, ◌≤◌, ◌≡◌, ap, Bool, true, false, ◌&&◌, List, length, str_eq, eq_iff, arith, ok, ◌⊎◌,
  leb, min, >>=_elim, ensure, ensure-eq-ok,
}
use ferrous_framework.Base.Action.{continue, continue_elim}
use ferrous_framework.LogIndex.Defs.{
  is_messagepack, World, LineIndex, scan_bytes, stale_generation, invalid_raw_bounds,
  invalid_raw_reference,
}
use ferrous_framework.LogIndex.Ops.{Decoder, refresh}
use ferrous_framework.LogIndex.Refresh.{Continues, Refreshed, refresh-Refreshed}
use ferrous_framework.LogIndex.Snapshot.{IsRead, read-IsRead}
use ferrous_framework.LogProjection.Defs.{RawReference, usize_max}
use ferrous_framework.LogWindow.Ops.{raw_start, raw_read, raw_fresh, raw}

-- The bytes of `ref` from `off` on, `limit` of them at most.
pub record IsRaw (w : World) (t : ℕ) (ref : RawReference) (off limit : ℕ) (s : LineIndex)
    (found : List ℕ) : Type 0 where
  pub generation : ref.generation ≡ s.generation
  pub within : ref.byte_end ≤ s.size
  pub starts : ref.byte_start ≤ raw_start ref off
  pub ends : raw_start ref off + length found ≤ ref.byte_end
  pub limited : length found ≤ limit
  pub complete : (raw_start ref off + length found ≡ ref.byte_end) ⊎ (length found ≡ limit)
  pub is_read :
      IsRead w t s (raw_start ref off) (min (ref.byte_end - raw_start ref off) limit) found

raw_read-IsRaw :
    (w : World) (t : ℕ) (ref : RawReference) (off limit : ℕ) (s : LineIndex) {found : List ℕ}
    → ref.byte_end ≤ usize_max
    → raw_read w t ref off limit s ≡ ok found
    → IsRaw w t ref off limit s found
unfolding raw_read
raw_read-IsRaw w t ref off limit s {found} word h =
    let P = IsRaw w t ref off limit s found in
    >>=_elim P (ensure (str_eq ref.generation s.generation) stale_generation) _ h λ _ gen h1.
      >>=_elim P
        (ensure (leb ref.byte_start ref.byte_end && leb ref.byte_end s.size) invalid_raw_reference)
        _ h1
        λ _ inside h2.
          let r = read-IsRead w t s _ _ found h2 in
          let ordered : (ref.byte_start ≤ ref.byte_end) × (ref.byte_end ≤ s.size) = ground arith in
          record {
            generation = (eq_iff _ _).0 (ensure-eq-ok _ _ gen);
            within = ordered.1;
            starts = omega (arith, ordered.0);
            ends = omega (arith, r.full);
            limited = omega (arith, r.full);
            complete = omega (arith, r.full);
            is_read = r;
          }

raw-fresh :
    (decode : Decoder) (w : World) (t : ℕ) (ref : RawReference) (off limit : ℕ) (s : LineIndex)
    {found : List ℕ} {s' : LineIndex}
    → raw decode w t ref off limit s ≡ (ok found, s')
    → raw_fresh decode w t ref off limit s ≡ (ok found, s')
unfolding raw
raw-fresh decode w t ref off limit s {found} {s'} h = go (leb 1 limit && leb limit scan_bytes) h
  where
    go :
        (a : Bool)
        → continue {B = List ℕ}
            (ensure a invalid_raw_bounds, s)
            (λ _ x. raw_fresh decode w t ref off limit x)
          ≡ (ok found, s')
        → raw_fresh decode w t ref off limit s ≡ (ok found, s')
    go true q = q
    go false q = absurd (ground arith)

-- When `raw` returns bytes of a text or JSON log, from an index that continues the log and for a
-- reference whose end is a u64, then the reference is of the generation of the index and within
-- its size, the bytes lie between `byte_start` and `byte_end`, there are at most `limit` of them,
-- and they end at `byte_end` or reach the limit.
pub raw-IsRaw :
    (decode : Decoder) (w : World) (t : ℕ) (ref : RawReference) (off limit : ℕ) (s : LineIndex)
    {found : List ℕ} {s' : LineIndex}
    → is_messagepack s.codec ≡ false
    → Continues (w t) s
    → ref.byte_end ≤ usize_max
    → raw decode w t ref off limit s ≡ (ok found, s')
    → Refreshed w t s' × IsRaw w (t + 4) ref off limit s' found
unfolding raw_fresh
raw-IsRaw decode w t ref off limit s {found} {s'} framing c word h =
    let P = Refreshed w t s' × IsRaw w (t + 4) ref off limit s' found in
    continue_elim P (refresh decode w t s) _ (raw-fresh decode w t ref off limit s h)
      λ _ s3 fresh h3.
        let same : s3 ≡ s' = ap (λ o. o.1) h3 in
        let got : raw_read w (t + 4) ref off limit s' ≡ ok found =
          subst (λ x. raw_read w (t + 4) ref off limit x ≡ ok found) same (ap (λ o. o.0) h3) in
        (
          subst (Refreshed w t) same (refresh-Refreshed decode w t s framing c fresh),
          raw_read-IsRaw w (t + 4) ref off limit s' word got,
        )

-- ===== src/LogIndex/Refresh.antt =====
-- `refresh` of src/log_window.rs, over a text or JSON log that only grows between two refreshes
-- unless its identity, length, time or reset marker shows that it was replaced.
use mathlib.Core.Path.{subst}
use ferrous_framework.Base.{
  ℕ, ◌+◌, ◌≤◌, ◌≡◌, refl, false, Option, some, List, [], arith, Result, ok, err, Bool-cases, inl,
  inr,
}
use ferrous_framework.Base.Action.{continue_elim}
use ferrous_framework.Bytes.Words.{encode}
use ferrous_framework.LogIndex.Defs.{
  is_messagepack, Error, Stat, Source, World, LineIndex, identity_of, mtime_of, open_stat,
  reset_token, must_restart, restart,
}
use ferrous_framework.LogIndex.Ops.{
  Decoder, index_rest, restart_if, forget_on_error, validate_snapshot, conclude, refresh_from,
  refresh_inner, refresh,
}
use ferrous_framework.LogIndex.Lines.{newline_ends, last_or}
use ferrous_framework.LogIndex.Indexed.{Indexed}
use ferrous_framework.LogIndex.Rounds.{index_rest-Indexed}

-- The log at `src` continues what `s` has indexed, wherever the code takes it so.
pub record Continues (src : Source) (s : LineIndex) : Type 0 where
  pub kept :
      (st : Stat) (token : List ℕ)
      → src.stat ≡ some st
      → must_restart s st token ≡ false
      → Indexed src.content s

-- what a refresh that succeeds at tick `t` leaves
pub record Refreshed (w : World) (t : ℕ) (s : LineIndex) : Type 0 where
  pub indexed : Indexed (w t).content s
  pub st : Stat
  pub seen : (w t).stat ≡ some st
  pub size : s.size ≡ st.len
  pub identity : s.identity ≡ some (identity_of st)
  pub mtime : s.mtime ≡ mtime_of st
  pub valid : validate_snapshot w (t + 2) s ≡ ok tt

empty-Indexed :
    (content : List ℕ) (s : LineIndex)
    → is_messagepack s.codec ≡ false
    → s.size ≡ 0
    → s.index ≡ []
    → s.complete ≡ 0
    → s.last_end ≡ 0
    → Indexed content s
unfolding newline_ends last_or encode
empty-Indexed content s framing size index complete last_end = record {
  framing = framing;
  covered = omega arith;
  index = rw size index;
  complete = rw size complete;
  last_end = rw size last_end;
}

restart-Indexed :
    (src : Source) (s : LineIndex) {s1 : LineIndex}
    → is_messagepack s.codec ≡ false
    → restart src s ≡ (ok tt, s1)
    → Indexed src.content s1 × (s1.size ≡ 0)
unfolding restart
restart-Indexed src s {s1} framing h =
    let size : s1.size ≡ 0 = ground arith in
    (
      empty-Indexed src.content s1 (ground arith) size (ground arith) (ground arith) (ground arith),
      size,
    )

must_restart-size :
    (s : LineIndex) (st : Stat) (token : List ℕ) → must_restart s st token ≡ false → s.size ≤ st.len
unfolding must_restart
must_restart-size s st token h = ground arith

pub restart_if-Indexed :
    (src : Source) (st : Stat) (token : List ℕ) (s : LineIndex) {s1 : LineIndex}
    → src.stat ≡ some st
    → is_messagepack s.codec ≡ false
    → Continues src s
    → restart_if src st token s ≡ (ok tt, s1)
    → Indexed src.content s1 × (s1.size ≤ st.len)
unfolding restart_if
restart_if-Indexed src st token s {s1} seen framing c h =
    elim (Bool-cases (must_restart s st token)) [
      | inl again ↦
          let (inv, size) = restart-Indexed src s {s1 = s1} framing (ground arith) in
          (inv, omega arith)
      | inr go_on ↦
          subst (λ x. Indexed src.content x × (x.size ≤ st.len)) (same go_on)
            (c.kept st token seen go_on, must_restart-size s st token go_on)
    ]
  where
    same : must_restart s st token ≡ false → s ≡ s1
    same go_on = ground arith

stat_of_open : (src : Source) (st : Stat) → open_stat src ≡ ok st → src.stat ≡ some st
unfolding open_stat
stat_of_open src st h = ground arith

-- the record is the same up to fields that the index does not use
pub Indexed-note :
    (content : List ℕ) (s : LineIndex) (i : Option (ℕ × ℕ)) (m : ℕ × ℕ) (token : List ℕ)
    → Indexed content s
    → Indexed content (record s { identity = i; mtime = m; reset = token })
Indexed-note content s i m token inv = record {
  framing = inv.framing;
  covered = inv.covered;
  index = inv.index;
  complete = inv.complete;
  last_end = inv.last_end;
}

conclude-Refreshed :
    (w : World) (t : ℕ) (st : Stat) (s : LineIndex) {s' : LineIndex}
    → (w t).stat ≡ some st
    → Indexed (w t).content s
    → s.size ≡ st.len
    → s.identity ≡ some (identity_of st)
    → conclude w t st s ≡ (ok tt, s')
    → Refreshed w t s'
unfolding conclude
conclude-Refreshed w t st s {s'} seen inv size identity h = subst (Refreshed w t) noted (record {
  indexed = Indexed-note (w t).content s s.identity (mtime_of st) s.reset inv;
  st = st;
  seen = seen;
  size = size;
  identity = identity;
  mtime = refl;
  valid = ground arith;
})
  where
    noted : record s { mtime = mtime_of st } ≡ s'
    noted = ground arith

refresh_from-Refreshed :
    (decode : Decoder) (w : World) (t : ℕ) (st : Stat) (token : List ℕ) (s : LineIndex)
    {s' : LineIndex}
    → (w t).stat ≡ some st
    → is_messagepack s.codec ≡ false
    → Continues (w t) s
    → refresh_from decode w t st token s ≡ (ok tt, s')
    → Refreshed w t s'
unfolding refresh_from
refresh_from-Refreshed decode w t st token s {s'} seen framing c h =
    continue_elim (Refreshed w t s') (restart_if (w t) st token s) _ h λ _ s1 began h1.
      let (inv1, le1) = restart_if-Indexed (w t) st token s seen framing c began in
      let s2 = record s1 { identity = some (identity_of st); reset = token } in
      let inv2 = Indexed-note (w t).content s1 (some (identity_of st)) s1.mtime token inv1 in
      continue_elim (Refreshed w t s') (index_rest decode st.len (w t) st.len s2) _ h1
        λ _ s3 loop h2.
          let (inv3, size, same) = index_rest-Indexed decode (w t) st.len st.len s2 inv2 le1 loop in
          conclude-Refreshed w t st s3 seen inv3 size same.identity h2

-- When `refresh` succeeds on a text or JSON log, from an index whose covered bytes are those of
-- the log wherever the code takes the log as continued, then the index file is the encoded list of
-- the line ends of the first `size` bytes, `complete` is their number, `last_end` the last of
-- them, `size`, identity and time are those of the file that was opened, and the snapshot is
-- valid.
pub refresh-Refreshed :
    (decode : Decoder) (w : World) (t : ℕ) (s : LineIndex) {s' : LineIndex}
    → is_messagepack s.codec ≡ false
    → Continues (w t) s
    → refresh decode w t s ≡ (ok tt, s')
    → Refreshed w t s'
unfolding refresh refresh_inner
refresh-Refreshed decode w t s {s'} framing c h =
    continue_elim (Refreshed w t s') (open_stat (w t), s) _ inner
      λ st sa opened h1.
        continue_elim (Refreshed w t s') (reset_token (w (t + 1)), sa) _ h1
          λ token sb marked h2.
            refresh_from-Refreshed decode w t st token s (stat_of_open (w t) st (ground arith))
              framing c (ground arith)
  where
    ok_of_forget :
        (o : Result Error (Unit {0}) × LineIndex)
        → forget_on_error o ≡ (ok tt, s')
        → o ≡ (ok tt, s')
    ok_of_forget (ok u, x) q = q
    ok_of_forget (err e, x) q = absurd (ground arith)

    inner : refresh_inner decode w t s ≡ (ok tt, s')
    inner = ok_of_forget (refresh_inner decode w t s) h

-- ===== src/LogIndex/Reuse.antt =====
-- When a later `refresh` of src/log_window.rs may go on from the index of an earlier one.
use ferrous_framework.Base.{
  ℕ, ◌≤◌, ◌≡◌, ap, sym, ◌∙◌, true, false, none, List, arith, length, take, Result, ok, err,
}
use ferrous_framework.Bytes.Words.{encode}
use ferrous_framework.LogIndex.Defs.{
  is_messagepack, Error, Stat, Source, World, LineIndex, must_restart,
}
use ferrous_framework.LogIndex.Ops.{Decoder, forget_on_error, refresh_inner, refresh}
use ferrous_framework.LogIndex.Lines.{last_or, line_ends}
use ferrous_framework.LogIndex.Indexed.{Indexed}
use ferrous_framework.LogIndex.Refresh.{Continues, Refreshed, refresh-Refreshed}

-- with no identity every refresh starts again
restart_of_none :
    (s : LineIndex) (st : Stat) (token : List ℕ)
    → s.identity ≡ none
    → must_restart s st token ≡ true
unfolding must_restart
restart_of_none s st token h = ground arith

pub Continues-of_none : (src : Source) (s : LineIndex) → s.identity ≡ none → Continues src s
Continues-of_none src s h = record {
  kept = λ st token _ q. absurd (ground (arith, restart_of_none s st token h));
}

-- a log whose indexed part is the same bytes may be continued
pub Continues-of_prefix :
    (old : List ℕ) (src : Source) (s : LineIndex)
    → Indexed old s
    → s.size ≤ length src.content
    → take s.size src.content ≡ take s.size old
    → Continues src s
Continues-of_prefix old src s inv le same = record {
  kept = λ st token _ _. record {
    framing = inv.framing;
    covered = le;
    index = rw same inv.index;
    complete = rw same inv.complete;
    last_end = rw same inv.last_end;
  };
}

-- Two refreshes of one log, from any two indexes for text or JSON that continue it, that both
-- succeed, leave the same index file, number of lines, last end and size: an incremental refresh
-- agrees with one from an empty index.
pub refresh_agree :
    (decode : Decoder) (w : World) (t : ℕ) (s u : LineIndex) {s' u' : LineIndex}
    → is_messagepack s.codec ≡ false
    → is_messagepack u.codec ≡ false
    → Continues (w t) s
    → Continues (w t) u
    → refresh decode w t s ≡ (ok tt, s')
    → refresh decode w t u ≡ (ok tt, u')
    → (s'.index ≡ u'.index)
      × (s'.complete ≡ u'.complete)
      × (s'.last_end ≡ u'.last_end)
      × (s'.size ≡ u'.size)
refresh_agree decode w t s u {s'} {u'} fs fu cs cu hs hu =
    let rs = refresh-Refreshed decode w t s fs cs hs in
    let ru = refresh-Refreshed decode w t u fu cu hu in
    let size : s'.size ≡ u'.size = sizes rs ru in
    (
      rs.indexed.index
          ∙ ap (λ n. encode (line_ends (take n (w t).content))) size
          ∙ sym ru.indexed.index,
      rs.indexed.complete
          ∙ ap (λ n. length (line_ends (take n (w t).content))) size
          ∙ sym ru.indexed.complete,
      rs.indexed.last_end
          ∙ ap (λ n. last_or 0 (line_ends (take n (w t).content))) size
          ∙ sym ru.indexed.last_end,
      size,
    )
  where
    sizes : Refreshed w t s' → Refreshed w t u' → s'.size ≡ u'.size
    sizes rs ru = ground (arith, rs.size, ru.size, rs.seen, ru.seen)

forgets :
    (decode : Decoder) (w : World) (t : ℕ) (s : LineIndex) {e : Error} {s' : LineIndex}
    → refresh decode w t s ≡ (err e, s')
    → s'.identity ≡ none
unfolding refresh
forgets decode w t s {e} {s'} h = go (refresh_inner decode w t s) h
  where
    go :
        (o : Result Error (Unit {0}) × LineIndex)
        → forget_on_error o ≡ (err e, s')
        → s'.identity ≡ none
    go (ok u, x) q = absurd (ground arith)
    go (err f, x) q = ground arith

-- After a `refresh` that fails, whatever failed and wherever it stopped, the next one that
-- succeeds on a text or JSON log, even one with other bytes, leaves an index that agrees with the
-- log: it needs no premise that the log continues what was indexed.
pub refresh-recovers :
    (decode : Decoder) (before after : World) (t u : ℕ) (s : LineIndex) {e : Error}
    {s1 s2 : LineIndex}
    → refresh decode before t s ≡ (err e, s1)
    → is_messagepack s1.codec ≡ false
    → refresh decode after u s1 ≡ (ok tt, s2)
    → Refreshed after u s2
refresh-recovers decode before after t u s {e} {s1} {s2} failed framing again =
    refresh-Refreshed decode after u s1 framing
      (Continues-of_none (after u) s1 (forgets decode before t s failed)) again

-- ===== src/LogIndex/Total.antt =====
-- `refresh` of src/log_window.rs succeeds on a log that holds still while it is read.
use ferrous_framework.Base.{ℕ, ◌+◌, ◌≤◌, ◌≡◌, refl, ◌∙◌, true, false, some, List, arith, ok}
use ferrous_framework.Base.Action.{continue}
use ferrous_framework.Bytes.Compare.{bytes_eq_self}
use ferrous_framework.LogIndex.Defs.{
  is_messagepack, Stat, Source, World, LineIndex, open_stat, reset_token, restart, identity_of,
  mtime_of,
}
use ferrous_framework.LogIndex.Ops.{
  Decoder, index_rest, restart_if, validate_snapshot, conclude, refresh_from, refresh_inner,
  refresh, same_log, same_token,
}
use ferrous_framework.LogIndex.Indexed.{Indexed}
use ferrous_framework.LogIndex.Rounds.{index_rest-Indexed}
use ferrous_framework.LogIndex.Progress.{Readable, index_rest-ok}
use ferrous_framework.LogIndex.Refresh.{Continues, restart_if-Indexed, Indexed-note}

-- The log holds still from tick `t` to `t + 3`, and can be read.
pub record Still (w : World) (t : ℕ) (st : Stat) (token : List ℕ) : Type 0 where
  pub opened : (w t).stat ≡ some st
  pub again : (w (t + 2)).stat ≡ some st
  pub marked : reset_token (w (t + 1)) ≡ ok token
  pub marked_again : reset_token (w (t + 2 + 1)) ≡ ok token
  pub readable : Readable st.len (w t)
  pub nonce : (n : List ℕ) × ((w t).nonce ≡ some n)

restart_if-ok :
    (src : Source) (st : Stat) (token nonce : List ℕ) (s : LineIndex)
    → src.index_ok ≡ true
    → src.nonce ≡ some nonce
    → restart_if src st token s ≡ (ok tt, (restart_if src st token s).1)
unfolding restart_if restart
restart_if-ok src st token nonce s io drawn = ground arith

same_log-ok :
    (s : LineIndex) (st : Stat)
    → s.identity ≡ some (identity_of st)
    → s.size ≡ st.len
    → s.mtime ≡ mtime_of st
    → same_log s st ≡ ok tt
unfolding same_log
same_log-ok s st identity size mtime = rw (identity, size, mtime) (ground arith)

conclude-ok :
    (w : World) (t : ℕ) (st : Stat) (token : List ℕ) (s : LineIndex)
    → Still w t st token
    → s.identity ≡ some (identity_of st)
    → s.size ≡ st.len
    → s.reset ≡ token
    → conclude w t st s ≡ (ok tt, record s { mtime = mtime_of st })
unfolding conclude validate_snapshot open_stat same_token
conclude-ok w t st token s still identity size reset =
    let log = same_log-ok (record s { mtime = mtime_of st }) st identity size refl in
    let tok = bytes_eq_self token in ground (arith, still.again, still.marked_again)

-- the loop and the end, from the state that they begin in
loop-ok :
    (decode : Decoder) (w : World) (t : ℕ) (st : Stat) (token : List ℕ) (s : LineIndex)
    → Still w t st token
    → Indexed (w t).content s
    → s.size ≤ st.len
    → s.identity ≡ some (identity_of st)
    → s.reset ≡ token
    → (s3 : LineIndex) × (index_rest decode st.len (w t) st.len s ≡ (ok tt, s3))
    → (s' : LineIndex) × (continue (index_rest decode st.len (w t) st.len s) (λ _. conclude w t st)
        ≡ (ok tt, s'))
loop-ok decode w t st token s still inv le identity reset (s3, loop) =
    let (inv3, size, same) = index_rest-Indexed decode (w t) st.len st.len s inv le loop in
    (
      record s3 { mtime = mtime_of st },
      rw loop
          (conclude-ok w t st token s3 still (same.identity ∙ identity) size (same.reset ∙ reset)),
    )

refresh_from-ok :
    (decode : Decoder) (w : World) (t : ℕ) (st : Stat) (token : List ℕ) (s s1 : LineIndex)
    → Still w t st token
    → is_messagepack s.codec ≡ false
    → Continues (w t) s
    → restart_if (w t) st token s ≡ (ok tt, s1)
    → (s' : LineIndex) × (refresh_from decode w t st token s ≡ (ok tt, s'))
unfolding refresh_from
refresh_from-ok decode w t st token s s1 still framing c began =
    let (inv1, le1) = restart_if-Indexed (w t) st token s still.opened framing c began in
    let s2 = record s1 { identity = some (identity_of st); reset = token } in
    let inv2 = Indexed-note (w t).content s1 (some (identity_of st)) s1.mtime token inv1 in
    let ready = index_rest-ok decode (w t) st.len still.readable st.len s2 inv2 (omega arith) in
    let (s', ended) = loop-ok decode w t st token s2 still inv2 le1 refl refl ready in
    (s', rw began ended)

-- `refresh` succeeds on a text or JSON log, from every index that continues the log, when the log
-- holds still, every read at its handle gives at least one byte, the index file can be written and
-- a nonce can be drawn: as many rounds of the loop as the file has bytes are enough.
pub refresh-ok :
    (decode : Decoder) (w : World) (t : ℕ) (st : Stat) (token : List ℕ) (s : LineIndex)
    → Still w t st token
    → is_messagepack s.codec ≡ false
    → Continues (w t) s
    → (s' : LineIndex) × (refresh decode w t s ≡ (ok tt, s'))
unfolding refresh refresh_inner open_stat
refresh-ok decode w t st token s still framing c =
    let (nonce, drawn) = still.nonce in
    let began = restart_if-ok (w t) st token nonce s still.readable.index_ok drawn in
    let (s', done) = refresh_from-ok decode w t st token s _ still framing c began in
    (s', rw (still.opened, still.marked, done))

-- ===== src/LogIndex/Snapshot.antt =====
-- `validate_snapshot` and `read` of src/log_window.rs: what is read comes from the log that was indexed.
use ferrous_framework.Base.{
  ℕ, ◌+◌, ◌≤◌, ◌≡◌, refl, ap, sym, ◌∙◌, some, List, length, take, drop, arith, ok, err, ◌==◌,
  >>=_elim, if◌then◌else◌,
}
use ferrous_framework.Bytes.Compare.{eq_of_bytes_eq}
use ferrous_framework.LogIndex.Defs.{
  io, Stat, Source, World, LineIndex, open_stat, reset_token, identity_of, mtime_of,
}
use ferrous_framework.LogIndex.Ops.{validate_snapshot, same_log, same_token, read_exact, read}

-- The log at `src` is the one that `s` indexed: the same file, no shorter, and unchanged if it is
-- not longer.
pub record IsLog (src : Source) (s : LineIndex) : Type 0 where
  pub st : Stat
  pub seen : src.stat ≡ some st
  pub identity : s.identity ≡ some (identity_of st)
  pub longer : s.size ≤ st.len
  pub unchanged : st.len ≡ s.size → s.mtime ≡ mtime_of st

same_log-IsLog :
    (src : Source) (s : LineIndex) (st : Stat)
    → open_stat src ≡ ok st
    → same_log s st ≡ ok tt
    → IsLog src s
unfolding same_log open_stat
same_log-IsLog src s st opened h = record {
  st = st;
  seen = ground arith;
  identity = ground arith;
  longer = ground arith;
  unchanged = λ e. ground arith;
}

same_token-eq : (s : LineIndex) (token : List ℕ) → same_token s token ≡ ok tt → token ≡ s.reset
unfolding same_token
same_token-eq s token h = eq_of_bytes_eq token s.reset (ground arith)

-- a snapshot that is valid from tick `t` on
pub record IsSnapshot (w : World) (t : ℕ) (s : LineIndex) : Type 0 where
  pub log : IsLog (w t) s
  pub token : reset_token (w (t + 1)) ≡ ok s.reset

pub validate_snapshot-IsSnapshot :
    (w : World) (t : ℕ) (s : LineIndex) → validate_snapshot w t s ≡ ok tt → IsSnapshot w t s
unfolding validate_snapshot
validate_snapshot-IsSnapshot w t s h =
    let P = IsSnapshot w t s in
    >>=_elim P (open_stat (w t)) _ h λ st opened h1.
      >>=_elim P (reset_token (w (t + 1))) _ h1 λ token marked h2.
        >>=_elim P (same_token s token) _ h2 λ _ same h3. record {
          log = same_log-IsLog (w t) s st opened h3;
          token = marked ∙ ap ok (same_token-eq s token same);
        }

-- what `read` at tick `t` returns
pub record IsRead (w : World) (t : ℕ) (s : LineIndex) (start count : ℕ) (found : List ℕ)
    : Type 0 where
  pub before : reset_token (w t) ≡ ok s.reset
  pub log : IsLog (w (t + 1)) s
  pub bytes : found ≡ take count (drop start (w (t + 1)).content)
  pub full : length found ≡ count
  pub after : IsSnapshot w (t + 2) s

read_exact-full :
    (src : Source) (start count : ℕ) (found : List ℕ)
    → read_exact src start count ≡ ok found
    → (found ≡ take count (drop start src.content)) × (length found ≡ count)
unfolding read_exact
read_exact-full src start count found h = go (take count (drop start src.content)) refl h
  where
    go :
        (x : List ℕ)
        → take count (drop start src.content) ≡ x
        → (if length x == count then ok x else err io) ≡ ok found
        → (found ≡ take count (drop start src.content)) × (length found ≡ count)
    go x e q = ground arith

-- When `read` returns bytes, they are the `count` bytes at `start` of the file at its handle, none
-- missing, that file is the one that was indexed, no shorter, and of the same time if it is not
-- longer, and the reset marker and the file are still the same when it has finished.
pub read-IsRead :
    (w : World) (t : ℕ) (s : LineIndex) (start count : ℕ) (found : List ℕ)
    → read w t s start count ≡ ok found
    → IsRead w t s start count found
unfolding read
read-IsRead w t s start count found h =
    let P = IsRead w t s start count found in
    >>=_elim P (reset_token (w t)) _ h λ token marked h1.
      >>=_elim P (same_token s token) _ h1 λ _ same h2.
        >>=_elim P (open_stat (w (t + 1))) _ h2 λ st opened h3.
          >>=_elim P (same_log s st) _ h3 λ _ log h4.
            >>=_elim P (read_exact (w (t + 1)) start count) _ h4 λ x got h5.
              >>=_elim P (validate_snapshot w (t + 2) s) _ h5 λ _ valid h6.
                let e : x ≡ found = ground arith in
                let full = read_exact-full (w (t + 1)) start count x got in
                record {
                  before = marked ∙ ap ok (same_token-eq s token same);
                  log = same_log-IsLog (w (t + 1)) s st opened log;
                  bytes = sym e ∙ full.0;
                  full = ap length (sym e) ∙ full.1;
                  after = validate_snapshot-IsSnapshot w (t + 2) s valid;
                }

-- ===== src/LogWindow/Spanned.antt =====
-- What the loop of `window` (src/log_window.rs) keeps: the records are those of a run of neighbouring
-- ordinals, and the fields say which.
use mathlib.Core.Path.{subst}
use ferrous_framework.Base.{
  ℕ, ◌+◌, ◌-◌, ◌≤◌, ◌<◌, ◌≡◌, refl, ap, sym, some, Bool, true, false, List, [], ◌∷◌, ◌++◌, arith,
  length, ok, inl, inr, Bool-cases, ◌==◌, ltb, length-append, >>=_elim,
}
use ferrous_framework.LogIndex.Defs.{Codec, World, LineIndex}
use ferrous_framework.LogIndex.Ops.{offset, read}
use ferrous_framework.LogProjection.Defs.{RecordProjection, parse_bytes, record_bytes}
use ferrous_framework.LogIndex.Snapshot.{IsRead, read-IsRead}
use ferrous_framework.LogProjection.Project.{project_record}
use ferrous_framework.LogProjection.Preview.{IsPreview, preview_text-IsPreview}
use ferrous_framework.LogProjection.Bounded.{IsWhole, IsBounded, project_record-IsBounded}
use ferrous_framework.LogWindow.Defs.{LogWindow, Projector}
use ferrous_framework.LogWindow.Ops.{record_at, extend, undo, drop_last}

-- What `r` shows of the bytes of its raw reference, which are read at tick `t`: their projection, or, where there are
-- too many to parse, the beginning of them with a diagnostic that says so.
pub data IsShown (p : Projector) (w : World) (t : ℕ) (codec : Codec) (s : LineIndex)
    (r : RecordProjection) : Type 0 where
  projected :
      (found : List ℕ)
      → r.raw.byte_end - r.raw.byte_start ≤ parse_bytes
      → IsRead w t s r.raw.byte_start (r.raw.byte_end - r.raw.byte_start) found
      → project_record p.serde found r.raw codec record_bytes parse_bytes ≡ ok r
      → IsBounded (IsWhole p.serde codec parse_bytes found) r.raw record_bytes r
      → IsShown p w t codec s r
  too_large :
      (found : List ℕ)
      → parse_bytes < r.raw.byte_end - r.raw.byte_start
      → IsRead w t s r.raw.byte_start (record_bytes + 4) found
      → IsPreview (p.serde.lossy found) record_bytes r.text
      → r.omissions ≡ []
      → r.diagnostic ≡ some "parse_budget_exceeded"
      → IsShown p w t codec s r

-- `r` refers to the bytes between the offsets of ordinal `o` and the next, and shows them.
pub record IsAt (p : Projector) (w : World) (codec : Codec) (s : LineIndex) (o : ℕ)
    (r : RecordProjection) : Type 0 where
  pub first : offset s o ≡ ok r.raw.byte_start
  pub last : offset s (o + 1) ≡ ok r.raw.byte_end
  pub generation : r.raw.generation ≡ s.generation
  pub tick : ℕ
  pub shows : IsShown p w tick codec s r

-- `rs` are the records of the ordinals from `o` on.
abbrev pub AreAt : Projector → World → Codec → LineIndex → ℕ → List RecordProjection → Type 0
AreAt p w codec s o [] = Unit
AreAt p w codec s o (r ∷ rs) = IsAt p w codec s o r × AreAt p w codec s (o + 1) rs

pub record Spanned (p : Projector) (w : World) (codec : Codec) (s : LineIndex) (total : ℕ)
    (win : LogWindow) : Type 0 where
  pub counted : win.start + length win.records ≡ win.end
  pub within : win.end ≤ total
  pub total_is : win.total ≡ total
  pub at_start_is : win.at_start ≡ (win.start == 0)
  pub at_tail_is : win.at_tail ≡ (win.end == total)
  pub records_at : AreAt p w codec s win.start win.records
  pub generation : win.generation ≡ s.generation

AreAt-snoc :
    (p : Projector) (w : World) (codec : Codec) (s : LineIndex) (o n : ℕ)
    (rs : List RecordProjection) (r : RecordProjection)
    → o + length rs ≡ n
    → AreAt p w codec s o rs
    → IsAt p w codec s n r
    → AreAt p w codec s o (rs ++ r ∷ [])
AreAt-snoc p w codec s o n [] r e h last =
    (subst (λ k. IsAt p w codec s k r) (omega arith) last, tt)
AreAt-snoc p w codec s o n (x ∷ rs) r e h last =
    (h.0, AreAt-snoc p w codec s (o + 1) n rs r (omega arith) h.1 last)

module _ (p : Projector) (w : World) (codec : Codec) (s : LineIndex) where
  pub record_at-IsAt :
      (t o : ℕ) {r : RecordProjection} → record_at p w codec s t o ≡ ok r → IsAt p w codec s o r
  unfolding record_at
  record_at-IsAt t o {r} h = >>=_elim (IsAt p w codec s o r) (offset s o) _ h λ a at_a h1.
      >>=_elim (IsAt p w codec s o r) (offset s (o + 1)) _ h1 λ e at_e h2.
        elim (Bool-cases (ltb parse_bytes (e - a))) [
          | inl big ↦
              >>=_elim (IsAt p w codec s o r) (read w t s a (record_bytes + 4)) _ (rw big at h2)
                λ found got h3.
                  let q : record { generation = s.generation; byte_start = a; byte_end = e }
                      ≡ r.raw =
                    ground arith in
                  refer a e at_a at_e q (
                    too_large found (rw (← q) (ground arith))
                      (rw (← q) (read-IsRead w t s a (record_bytes + 4) found got))
                      (subst (IsPreview (p.serde.lossy found) record_bytes) (ground arith)
                        (preview_text-IsPreview (p.serde.lossy found) record_bytes))
                      (ground arith) (ground arith))
          | inr small ↦
              >>=_elim (IsAt p w codec s o r) (read w t s a (e - a)) _ (rw small at h2)
                λ found got h3.
                  let bounded =
                    project_record-IsBounded p.serde found
                      (record { generation = s.generation; byte_start = a; byte_end = e }) codec
                      record_bytes parse_bytes (omega arith) h3 in
                  let q : record { generation = s.generation; byte_start = a; byte_end = e }
                      ≡ r.raw =
                    sym bounded.raw_is in
                  refer a e at_a at_e q (
                    projected found (rw (← q) (ground arith))
                      (rw (← q) (read-IsRead w t s a (e - a) found got))
                      (subst
                        (λ x. project_record p.serde found x codec record_bytes parse_bytes ≡ ok r)
                        q h3)
                      (subst
                        (λ x. IsBounded (IsWhole p.serde codec parse_bytes found) x record_bytes r)
                        q bounded))
        ]
    where
      refer :
          (a e : ℕ)
          → offset s o ≡ ok a
          → offset s (o + 1) ≡ ok e
          → record { generation = s.generation; byte_start = a; byte_end = e } ≡ r.raw
          → IsShown p w t codec s r
          → IsAt p w codec s o r
      refer a e at_a at_e q shown = record {
        first = ground arith;
        last = ground arith;
        generation = ground arith;
        tick = t;
        shows = shown;
      }

module _ (p : Projector) (w : World) (codec : Codec) (s : LineIndex) (total start stop : ℕ)
    (win : LogWindow) (inv : Spanned p w codec s total win) where
  pub extend-forward :
      (r : RecordProjection)
      → win.start ≡ start
      → win.end < total
      → IsAt p w codec s win.end r
      → Spanned p w codec s total (extend false start stop win.end r win)
  unfolding extend
  extend-forward r from below at = record {
    counted = omega (arith, length-append win.records (r ∷ []), inv.counted);
    within = omega arith;
    total_is = inv.total_is;
    at_start_is = refl;
    at_tail_is = rw inv.total_is;
    records_at =
        rw (← from)
          (AreAt-snoc p w codec s win.start win.end win.records r inv.counted inv.records_at at);
    generation = inv.generation;
  }

  pub extend-backward :
      (o : ℕ) (r : RecordProjection)
      → win.end ≡ stop
      → win.start ≡ o + 1
      → IsAt p w codec s o r
      → Spanned p w codec s total (extend true start stop o r win)
  unfolding extend
  extend-backward o r to next at = record {
    counted = omega (arith, inv.counted);
    within = omega (arith, inv.within);
    total_is = inv.total_is;
    at_start_is = refl;
    at_tail_is = rw inv.total_is;
    records_at = (at, rw (← next) inv.records_at);
    generation = inv.generation;
  }

drop_last_snoc {ℓ} : {A : Type ℓ} (xs : List A) (x : A) → drop_last (xs ++ x ∷ []) ≡ xs
drop_last_snoc [] x = refl
drop_last_snoc (y ∷ []) x = refl
drop_last_snoc (y ∷ z ∷ xs) x = ap (◌∷◌ y) (drop_last_snoc (z ∷ xs) x)

-- Taking the last record out again restores the window.
pub undo-extend :
    (backward : Bool) (start stop o : ℕ) (r : RecordProjection) (win : LogWindow)
    → undo backward win (extend backward start stop o r win) ≡ win
unfolding undo extend
undo-extend true start stop o r win = refl
undo-extend false start stop o r win = λ i. record win { records = drop_last_snoc win.records r i }

-- ===== src/LogIndex/Rounds.antt =====
-- The `while` loop of `refresh_inner` (src/log_window.rs) over a text or JSON log: it ends within
-- its rounds, and where it succeeds the index covers the log up to the length that was asked for.
use mathlib.Core.Path.{subst}
use ferrous_framework.Base.{
  ℕ, zero, suc, ◌-◌, ◌≤◌, ◌<◌, ◌≡◌, ◌≢◌, refl, ap, sym, ◌∙◌, true, false, List, [], ◌∷◌, arith, ltb,
  ltb→lt, length, take, drop, min, Result, ok, err, Bool-cases, Option-cases, inl, inr, length-take,
}
use ferrous_framework.Base.Action.{continue, continue-eq-ok, continue-eq-err}
use ferrous_framework.LogIndex.Defs.{
  Error, io, out_of_rounds, Source, LineIndex, read_some, scan_bytes,
}
use ferrous_framework.LogIndex.Ops.{
  Decoder, write_marks, index_lines, index_chunk, index_round, index_rest,
}
use ferrous_framework.LogIndex.Indexed.{
  Indexed, SameRun, SameRun-refl, SameRun-trans, scanned, index_lines-scanned, scanned-Indexed,
}

module _ (decode : Decoder) (src : Source) where
  -- What a round that succeeds has done.
  pub record Advanced (len : ℕ) (s s' : LineIndex) : Type 0 where
    pub indexed : Indexed src.content s'
    pub grown : s.size < s'.size
    pub within : s'.size ≤ len
    pub same : SameRun s s'

  read_some-prefix :
      (pos want : ℕ) (chunk : List ℕ)
      → read_some src pos want ≡ ok chunk
      → (k : ℕ) × (k ≤ want) × (chunk ≡ take k (drop pos src.content))
  unfolding read_some
  read_some-prefix pos want chunk h = elim (Option-cases (src.read_size pos want)) [
    | inl e ↦ absurd (ground arith)
    | inr (n, e) ↦ (min n want, omega arith, ground arith)
  ]

  Advanced-scanned :
      (len : ℕ) (s : LineIndex) (k : ℕ)
      → Indexed src.content s
      → s.size < len
      → k ≤ len - s.size
      → 0 < length (take k (drop s.size src.content))
      → Advanced len s (scanned (take k (drop s.size src.content)) s)
  Advanced-scanned len s k inv below fits some_read = record {
    indexed = scanned-Indexed src.content k s inv;
    grown = omega arith;
    within = omega (arith, length-take k (drop s.size src.content));
    same = record { identity = refl; reset = refl; generation = refl; codec = refl };
  }

  pub index_round-Advanced :
      (len : ℕ) (s : LineIndex) {s' : LineIndex}
      → Indexed src.content s
      → s.size < len
      → index_round decode src len s ≡ (ok tt, s')
      → Advanced len s s'
  unfolding index_round index_chunk
  index_round-Advanced len s {s'} inv below h =
      go (read_some src s.size (min (len - s.size) scan_bytes)) refl
    where
      go :
          (r : Result Error (List ℕ))
          → read_some src s.size (min (len - s.size) scan_bytes) ≡ r
          → Advanced len s s'
      go (err e) q = absurd (ground arith)
      go (ok []) q = absurd (ground arith)
      go (ok (b ∷ bs)) q =
          let (k, fits, prefix) = read_some-prefix s.size _ (b ∷ bs) q in
          let lines : index_lines src (b ∷ bs) s ≡ (ok tt, s') = ground arith in
          let s'-eq : s' ≡ scanned (b ∷ bs) s = index_lines-scanned src (b ∷ bs) s lines in
          subst (Advanced len s) (sym (s'-eq ∙ ap (λ c. scanned c s) prefix))
            (Advanced-scanned len s k inv below (omega arith) (rw (← prefix) (omega arith)))

  read_some-io : (pos want : ℕ) {e : Error} → read_some src pos want ≡ err e → e ≡ io
  unfolding read_some
  read_some-io pos want h = elim (Option-cases (src.read_size pos want)) [
    | inl e ↦ ground arith
    | inr (n, e) ↦ absurd (ground arith)
  ]

  -- a round gives no `out_of_rounds`
  index_round-rounds :
      (len : ℕ) (s : LineIndex) {s' : LineIndex}
      → Indexed src.content s
      → index_round decode src len s ≢ (err out_of_rounds, s')
  unfolding index_round index_chunk index_lines write_marks
  index_round-rounds len s {s'} inv h =
      go (read_some src s.size (min (len - s.size) scan_bytes)) refl
    where
      go :
          (r : Result Error (List ℕ)) → read_some src s.size (min (len - s.size) scan_bytes) ≡ r → ⊥
      go (err e) q = ground (arith, read_some-io s.size (min (len - s.size) scan_bytes) q)
      go (ok []) q = ground arith
      go (ok (b ∷ bs)) q = ground arith

  pub index_rest-step :
      (rounds len : ℕ) (s : LineIndex)
      → ltb s.size len ≡ true
      → index_rest decode (suc rounds) src len s
        ≡ continue (index_round decode src len s) (λ _ s'. index_rest decode rounds src len s')
  unfolding index_rest
  index_rest-step rounds len s h = rw (h, index_rest)

  finish :
      (len : ℕ) (s : LineIndex) {s' : LineIndex}
      → Indexed src.content s
      → s.size ≤ len
      → ltb s.size len ≡ false
      → s ≡ s'
      → Indexed src.content s' × (s'.size ≡ len) × SameRun s s'
  finish len s inv le done e =
      subst (λ t. Indexed src.content t × (t.size ≡ len) × SameRun s t) e
        (inv, ground arith, SameRun-refl s)

  -- The loop leaves an index of exactly the first `len` bytes.
  pub index_rest-Indexed :
      (rounds len : ℕ) (s : LineIndex) {s' : LineIndex}
      → Indexed src.content s
      → s.size ≤ len
      → index_rest decode rounds src len s ≡ (ok tt, s')
      → Indexed src.content s' × (s'.size ≡ len) × SameRun s s'
  unfolding index_rest
  index_rest-Indexed zero len s inv le h = finish len s inv le (ground arith) (ground arith)
  index_rest-Indexed (suc rounds) len s {s'} inv le h = elim (Bool-cases (ltb s.size len)) [
    | inl more ↦
        let (_, s1, first, rest) =
          continue-eq-ok (index_round decode src len s) _
            (sym (index_rest-step rounds len s more) ∙ h) in
        let adv = index_round-Advanced len s inv (ltb→lt _ _ more) first in
        let (inv', size', same) = index_rest-Indexed rounds len s1 adv.indexed adv.within rest in
        (inv', size', SameRun-trans adv.same same)
    | inr done ↦ finish len s inv le done (ground arith)
  ]

  -- With a round for each byte that is left, the loop does not run out of rounds.
  pub index_rest-rounds :
      (rounds len : ℕ) (s : LineIndex) {s' : LineIndex}
      → Indexed src.content s
      → len - s.size ≤ rounds
      → index_rest decode rounds src len s ≢ (err out_of_rounds, s')
  unfolding index_rest
  index_rest-rounds zero len s inv enough h = ground arith
  index_rest-rounds (suc rounds) len s {s'} inv enough h = elim (Bool-cases (ltb s.size len)) [
    | inl more ↦
        elim (continue-eq-err (index_round decode src len s) _
          (sym (index_rest-step rounds len s more) ∙ h)) [
            | inl failed ↦ index_round-rounds len s inv failed
            | inr (_, s1, first, rest) ↦
                let adv = index_round-Advanced len s inv (ltb→lt _ _ more) first in
                index_rest-rounds rounds len s1 adv.indexed (omega (arith, adv.grown)) rest
          ]
    | inr done ↦ ground arith
  ]

-- ===== src/LogIndex/Progress.antt =====
-- Where the log can be read, the `while` loop of `refresh_inner` (src/log_window.rs) succeeds.
use ferrous_framework.Base.{
  ℕ, zero, suc, ◌-◌, ◌≤◌, ◌<◌, ◌≡◌, refl, ap, ◌∙◌, true, some, List, [], ◌∷◌, arith, ltb, ltb→lt,
  length, take, drop, min, ok, Bool-cases, inl, inr, length-take, length-drop,
}
use ferrous_framework.LogIndex.Defs.{Source, LineIndex, read_some, scan_bytes}
use ferrous_framework.LogIndex.Ops.{
  Decoder, write_marks, index_lines, index_chunk, index_round, index_rest,
}
use ferrous_framework.LogIndex.Indexed.{Indexed}
use ferrous_framework.LogIndex.Rounds.{index_rest-step, index_round-Advanced}

-- The handle gives bytes wherever bytes are asked for, `len` of them are there, and the index file
-- takes what is written.
pub record Readable (len : ℕ) (src : Source) : Type 0 where
  pub reads : (pos want : ℕ) → 0 < want → (n : ℕ) × (src.read_size pos want ≡ some n) × (0 < n)
  pub enough : len ≤ length src.content
  pub index_ok : src.index_ok ≡ true

cons_of_pos {ℓ} :
    {A : Type ℓ} (xs : List A) → 0 < length xs → (b : A) × (bs : List A) × (xs ≡ b ∷ bs)
cons_of_pos [] h = absurd (omega arith)
cons_of_pos (x ∷ xs) h = (x, xs, refl)

index_lines-ok :
    (src : Source) (chunk : List ℕ) (s : LineIndex)
    → src.index_ok ≡ true
    → index_lines src chunk s ≡ (ok tt, (index_lines src chunk s).1)
unfolding index_lines write_marks
index_lines-ok src chunk s h = ground arith

module _ (decode : Decoder) (src : Source) (len : ℕ) (can : Readable len src) where
  read_some-ok :
      (s : LineIndex)
      → s.size < len
      → (b : ℕ) × (bs : List ℕ) × (read_some src s.size (min (len - s.size) scan_bytes)
          ≡ ok (b ∷ bs))
  unfolding read_some
  read_some-ok s below =
      let want = min (len - s.size) scan_bytes in
      let (n, found, some_read) = can.reads s.size want (omega arith) in
      let got = take (min n want) (drop s.size src.content) in
      let (b, bs, e) = cons_of_pos got (
        omega (
          arith,
          can.enough,
          length-take (min n want) (drop s.size src.content),
          length-drop s.size src.content,
        )) in
      (b, bs, rw (found, read_some) (ap ok e))

  index_round-ok :
      (s : LineIndex)
      → Indexed src.content s
      → s.size < len
      → (s' : LineIndex) × (index_round decode src len s ≡ (ok tt, s'))
  unfolding index_round index_chunk
  index_round-ok s inv below =
      let (b, bs, e) = read_some-ok s below in
      let done = index_lines-ok src (b ∷ bs) s can.index_ok in
      ((index_lines src (b ∷ bs) s).1, ground arith)

  pub index_rest-ok :
      (rounds : ℕ) (s : LineIndex)
      → Indexed src.content s
      → len - s.size ≤ rounds
      → (s' : LineIndex) × (index_rest decode rounds src len s ≡ (ok tt, s'))
  unfolding index_rest
  index_rest-ok zero s inv enough = (s, ground arith)
  index_rest-ok (suc rounds) s inv enough = elim (Bool-cases (ltb s.size len)) [
    | inl more ↦
        let (s1, first) = index_round-ok s inv (ltb→lt _ _ more) in
        let adv = index_round-Advanced decode src len s inv (ltb→lt _ _ more) first in
        let (s', rest) = index_rest-ok rounds s1 adv.indexed (omega (arith, adv.grown)) in
        (s', index_rest-step decode src rounds len s more ∙ ground arith)
    | inr done ↦ (s, ground arith)
  ]

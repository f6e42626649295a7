-- ===== src/LogIndex/Cut.antt =====
-- `offset` of src/log_window.rs: two neighbouring offsets cut one line out of the log.
use mathlib.Core.Option.{some-injective}
use ferrous_framework.Base.{
  append_assoc, ℕ, zero, suc, ◌+◌, ◌-◌, ◌*◌, ◌^◌, ◌≤◌, ◌<◌, ◌≡◌, refl, ap, sym, ◌∙◌, some, List, [],
  ◌∷◌, ◌++◌, arith, length, take, drop, get_elem?, All, ok, inl, inr, Bool-cases, ◌==◌,
  if◌then◌else◌, length-append, length-take,
}
use ferrous_framework.Bytes.Words.{read_word, read_word-encode}
use ferrous_framework.LogIndex.Defs.{LineIndex}
use ferrous_framework.LogIndex.Ops.{offset}
use ferrous_framework.LogIndex.Lines.{newline_ends, newline_ends-bounds, line_ends}
use ferrous_framework.LogIndex.Indexed.{Indexed}

-- The lines of `bs`, each with its newline; `acc` is the part of the first line that stands before
-- `bs`. What follows the last newline is in no line.
unfoldable pub lines : List ℕ → List ℕ → List (List ℕ)
lines acc [] = []
lines acc (b ∷ bs) =
    let full = (acc ++ b ∷ []) ∷ lines [] bs in
    let open_line = lines (acc ++ b ∷ []) bs in if b == b'\n' then full else open_line

drop-add {ℓ} : {A : Type ℓ} (n m : ℕ) (xs : List A) → drop (n + m) xs ≡ drop m (drop n xs)
drop-add {A} zero m xs = ap (λ k. drop k xs) (omega arith)
drop-add {A} (suc n) m [] = drop_empty (suc n + m) m
  where
    drop_empty : (k j : ℕ) → drop {A = A} k [] ≡ drop j []
    drop_empty zero zero = refl
    drop_empty zero (suc j) = refl
    drop_empty (suc k) zero = refl
    drop_empty (suc k) (suc j) = refl
drop-add {A} (suc n) m (x ∷ xs) = ap (λ k. drop k (x ∷ xs)) next ∙ drop-add n m xs
  where
    next : suc n + m ≡ suc (n + m)
    next = omega arith

take_line {ℓ} :
    {A : Type ℓ} (acc : List A) (b : A) (bs : List A)
    → take (suc (length acc)) (acc ++ b ∷ bs) ≡ acc ++ b ∷ []
take_line [] b bs = refl
take_line (x ∷ xs) b bs = ap (◌∷◌ x) (take_line xs b bs)

drop_line {ℓ} :
    {A : Type ℓ} (acc : List A) (b : A) (bs : List A) → drop (suc (length acc)) (acc ++ b ∷ bs) ≡ bs
drop_line [] b bs = refl
drop_line (x ∷ xs) b bs = drop_line xs b bs

regroup :
    (content : List ℕ) (p : ℕ) (acc : List ℕ) (b : ℕ) (bs : List ℕ)
    → drop p content ≡ acc ++ b ∷ bs
    → drop p content ≡ (acc ++ b ∷ []) ++ bs
regroup content p acc b bs h = h ∙ sym (append_assoc acc (b ∷ []) bs)

-- Line `i` of what stands behind position `p` lies between two neighbours of `p` and the ends.
lines_cut :
    (content : List ℕ) (p q : ℕ) (acc bs : List ℕ) (i : ℕ) (l : List ℕ)
    → drop p content ≡ acc ++ bs
    → q ≡ p + length acc
    → get_elem? (lines acc bs) i ≡ some l
    → (a : ℕ) × (e : ℕ) × (get_elem? (p ∷ newline_ends q bs) i ≡ some a)
      × (get_elem? (newline_ends q bs) i ≡ some e)
      × (take (e - a) (drop a content) ≡ l)
unfolding lines newline_ends
lines_cut content p q acc [] i l split at h = absurd (ground arith)
lines_cut content p q acc (b ∷ bs) zero l split at h = elim (Bool-cases (b == b'\n')) [
  | inl newline ↦ rw newline (p, q + 1, refl, refl, first (rw newline at h))
  | inr other ↦ rw other (
      lines_cut content p (q + 1) (acc ++ b ∷ []) bs zero l (regroup content p acc b bs split)
        (omega (arith, length-append acc (b ∷ []))) (rw other at h))
]
  where
    first : some (acc ++ b ∷ []) ≡ some l → take (q + 1 - p) (drop p content) ≡ l
    first e =
        let width : q + 1 - p ≡ suc (length acc) = omega arith in
        rw (width, split) (take_line acc b bs ∙ some-injective _ _ e)
lines_cut content p q acc (b ∷ bs) (suc i) l split at h = elim (Bool-cases (b == b'\n')) [
  | inl newline ↦
      rw newline
        (lines_cut content (q + 1) (q + 1) [] bs i l behind (omega arith) (rw newline at h))
  | inr other ↦ rw other (
      lines_cut content p (q + 1) (acc ++ b ∷ []) bs (suc i) l (regroup content p acc b bs split)
        (omega (arith, length-append acc (b ∷ []))) (rw other at h))
]
  where
    behind : drop (q + 1) content ≡ bs
    behind =
        let width : q + 1 ≡ p + suc (length acc) = omega arith in
        rw (width, drop-add p (suc (length acc)) content, split) (drop_line acc b bs)

get_elem?-lt {ℓ} :
    {A : Type ℓ} (xs : List A) (i : ℕ) {a : A} → get_elem? xs i ≡ some a → i < length xs
get_elem?-lt [] i h = absurd (ground arith)
get_elem?-lt (x ∷ xs) zero h = omega arith
get_elem?-lt (x ∷ xs) (suc i) h = omega (arith, get_elem?-lt xs i h)

module _ (content : List ℕ) (s : LineIndex) (inv : Indexed content s)
    (small : s.size < 2 ^ 64) where
  words :
      (es : List ℕ)
      → All (λ e. (0 < e) × (e ≤ 0 + length (take s.size content))) es
      → All (λ e. e < 2 ^ 64) es
  words [] h = tt
  words (e ∷ es) h = (omega (arith, length-take s.size content, h.0.1), words es h.1)

  pub offset-line_ends :
      (i : ℕ) {a : ℕ}
      → get_elem? (0 ∷ line_ends (take s.size content)) i ≡ some a
      → offset s i ≡ ok a
  unfolding offset
  offset-line_ends zero h = ground arith
  offset-line_ends (suc n) {a} h =
      let ends = line_ends (take s.size content) in
      let below : n < length ends = get_elem?-lt ends n h in
      let word : read_word s.index (n * 8) ≡ some a =
        rw inv.index (
          read_word-encode ends n (words ends (newline_ends-bounds 0 (take s.size content))) ∙ h) in
      ground (arith, inv.complete)

  -- In an index that agrees with the log and covers less than 2^64 bytes, `offset` at an ordinal
  -- and at the next one return positions between which exactly the line of that ordinal stands,
  -- its newline included.
  pub offset-cuts :
      (i : ℕ) (l : List ℕ)
      → get_elem? (lines [] (take s.size content)) i ≡ some l
      → (a : ℕ) × (e : ℕ) × (offset s i ≡ ok a)
        × (offset s (suc i) ≡ ok e)
        × (take (e - a) (drop a (take s.size content)) ≡ l)
  offset-cuts i l h =
      let (a, e, at_a, at_e, cut) =
        lines_cut (take s.size content) 0 0 [] (take s.size content) i l refl (omega arith) h in
      (a, e, offset-line_ends i at_a, offset-line_ends (suc i) at_e, cut)

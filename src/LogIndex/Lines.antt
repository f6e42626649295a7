-- ===== src/LogIndex/Lines.antt =====
-- Where the lines of a byte sequence end: the reference that the scan of src/log_window.rs is
-- compared with, and the lines themselves.
use ferrous_framework.Base.{
  inl, inr, ℕ, suc, ◌+◌, ◌≤◌, ◌<◌, ◌≡◌, refl, ap, ◌∙◌, List, [], ◌∷◌, ◌++◌, append_assoc,
  append-nil, arith, ◌==◌, if◌then◌else◌, length, All, Bool-cases,
}
use ferrous_framework.Bytes.Words.{encode, to_le_bytes}
use ferrous_framework.LogIndex.Defs.{Marks, mark, scan_lines}

-- the positions behind the newlines of `bs`, which begins at position `pos`
unfoldable pub newline_ends : ℕ → List ℕ → List ℕ
newline_ends pos [] = []
newline_ends pos (b ∷ bs) =
    let rest = newline_ends (pos + 1) bs in if b == b'\n' then (pos + 1) ∷ rest else rest

unfoldable pub last_or : ℕ → List ℕ → ℕ
last_or d [] = d
last_or d (x ∷ xs) = last_or x xs

abbrev pub line_ends : List ℕ → List ℕ
line_ends = newline_ends 0

pub newline_ends-append :
    (pos : ℕ) (xs ys : List ℕ)
    → newline_ends pos (xs ++ ys) ≡ newline_ends pos xs ++ newline_ends (pos + length xs) ys
unfolding newline_ends
newline_ends-append pos [] ys = ap (λ p. newline_ends p ys) (omega arith)
newline_ends-append pos (x ∷ xs) ys =
    let tail : newline_ends (pos + 1) (xs ++ ys)
        ≡ newline_ends (pos + 1) xs ++ newline_ends (pos + suc (length xs)) ys =
      newline_ends-append (pos + 1) xs ys
      ∙ ap (λ p. newline_ends (pos + 1) xs ++ newline_ends p ys) (omega arith) in
    ground (arith, tail)

pub last_or-append : (d : ℕ) (xs ys : List ℕ) → last_or d (xs ++ ys) ≡ last_or (last_or d xs) ys
unfolding last_or
last_or-append d [] ys = refl
last_or-append d (x ∷ xs) ys = last_or-append x xs ys

-- `m` after more ends, in order
abbrev pub note_ends : Marks → List ℕ → Marks
note_ends m es = record {
  last_end = last_or m.last_end es;
  complete = m.complete + length es;
  offsets = m.offsets ++ encode es;
}

note_ends_nil : (m : Marks) → m ≡ note_ends m []
unfolding last_or encode
note_ends_nil m = ground (arith, append-nil m.offsets)

note_ends-mark : (e : ℕ) (es : List ℕ) (m : Marks) → note_ends (mark e m) es ≡ note_ends m (e ∷ es)
unfolding last_or encode mark
note_ends-mark e es m = ground (arith, append_assoc m.offsets (to_le_bytes e) (encode es))

-- The scan of one buffer notes the ends of its lines.
pub scan_lines_lem :
    (pos : ℕ) (bs : List ℕ) (m : Marks) → scan_lines pos bs m ≡ note_ends m (newline_ends pos bs)
unfolding scan_lines newline_ends
scan_lines_lem pos [] m = note_ends_nil m
scan_lines_lem pos (b ∷ bs) m = elim (Bool-cases (b == b'\n')) [
  | inl e ↦ rw e (scan_lines_lem (pos + 1) bs (mark (pos + 1) m) ∙ note_ends-mark _ _ m)
  | inr e ↦ rw e (scan_lines_lem (pos + 1) bs m)
]

-- every end lies behind `pos` and within the bytes
pub newline_ends-bounds :
    (pos : ℕ) (bs : List ℕ) → All (λ e. (pos < e) × (e ≤ pos + length bs)) (newline_ends pos bs)
unfolding newline_ends
newline_ends-bounds pos [] = tt
newline_ends-bounds pos (b ∷ bs) = elim (Bool-cases (b == b'\n')) [
  | inl e ↦ rw e ((omega arith, omega arith), weaken (newline_ends-bounds (pos + 1) bs))
  | inr e ↦ rw e (weaken (newline_ends-bounds (pos + 1) bs))
]
  where
    weaken_all :
        (es : List ℕ)
        → All (λ x. (pos + 1 < x) × (x ≤ pos + 1 + length bs)) es
        → All (λ x. (pos < x) × (x ≤ pos + suc (length bs))) es
    weaken_all [] a = tt
    weaken_all (x ∷ xs) a = ((omega arith, omega arith), weaken_all xs a.1)

    weaken :
        All (λ x. (pos + 1 < x) × (x ≤ pos + 1 + length bs)) (newline_ends (pos + 1) bs)
        → All (λ x. (pos < x) × (x ≤ pos + suc (length bs))) (newline_ends (pos + 1) bs)
    weaken a = weaken_all (newline_ends (pos + 1) bs) a

pub last_or-le : (d n : ℕ) (xs : List ℕ) → d ≤ n → All (λ e. e ≤ n) xs → last_or d xs ≤ n
unfolding last_or
last_or-le d n [] h a = h
last_or-le d n (x ∷ xs) h a = last_or-le x n xs a.0 a.1

-- ===== src/LogIndex/Indexed.antt =====
-- The index of a text or JSON log agrees with the bytes that it covers, and the scan of one more
-- buffer keeps that (src/log_window.rs, the `while` loop of `refresh_inner`).
use ferrous_framework.Base.{
  ℕ, zero, suc, ◌+◌, ◌≤◌, ◌≡◌, refl, ap, sym, ◌∙◌, false, List, [], ◌∷◌, ◌++◌, arith, length, take,
  drop, max, ok, length-append, length-take, length-drop, take-add,
}
use ferrous_framework.Bytes.Words.{encode, encode-append}
use ferrous_framework.LogIndex.Defs.{is_messagepack, Source, LineIndex}
use ferrous_framework.LogIndex.Ops.{marks_of, write_marks, index_lines}
use ferrous_framework.LogIndex.Lines.{
  newline_ends, last_or, line_ends, newline_ends-append, last_or-append, note_ends, scan_lines_lem,
}

-- `s` indexes exactly the first `s.size` bytes of `content`
pub record Indexed (content : List ℕ) (s : LineIndex) : Type 0 where
  pub framing : is_messagepack s.codec ≡ false
  pub covered : s.size ≤ length content
  pub index : s.index ≡ encode (line_ends (take s.size content))
  pub complete : s.complete ≡ length (line_ends (take s.size content))
  pub last_end : s.last_end ≡ last_or 0 (line_ends (take s.size content))

take-length-take {ℓ} : {A : Type ℓ} (n : ℕ) (xs : List A) → take (length (take n xs)) xs ≡ take n xs
take-length-take zero xs = refl
take-length-take (suc n) [] = refl
take-length-take (suc n) (x ∷ xs) = ap (◌∷◌ x) (take-length-take n xs)

-- the bytes covered after `n` bytes and a buffer read at `n`
take-buffer :
    (n k : ℕ) (xs : List ℕ)
    → take (n + length (take k (drop n xs))) xs ≡ take n xs ++ take k (drop n xs)
take-buffer n k xs =
    take-add n (length (take k (drop n xs))) xs
    ∙ ap (λ t. take n xs ++ t) (take-length-take k (drop n xs))

line_ends-buffer :
    (n k : ℕ) (xs : List ℕ)
    → n ≤ length xs
    → line_ends (take (n + length (take k (drop n xs))) xs)
      ≡ line_ends (take n xs) ++ newline_ends n (take k (drop n xs))
line_ends-buffer n k xs h =
    ap line_ends (take-buffer n k xs)
    ∙ newline_ends-append 0 (take n xs) (take k (drop n xs))
    ∙ ap (λ p. line_ends (take n xs) ++ newline_ends p (take k (drop n xs))) pos
  where
    pos : 0 + length (take n xs) ≡ n
    pos = omega (arith, length-take n xs)

pub length-buffer : (n k : ℕ) (xs : List ℕ) → n + length (take k (drop n xs)) ≤ max n (length xs)
length-buffer n k xs = omega (arith, length-take k (drop n xs), length-drop n xs)

-- what stays fixed while the log is read
pub record SameRun (s s' : LineIndex) : Type 0 where
  pub identity : s'.identity ≡ s.identity
  pub reset : s'.reset ≡ s.reset
  pub generation : s'.generation ≡ s.generation
  pub codec : s'.codec ≡ s.codec

pub SameRun-refl : (s : LineIndex) → SameRun s s
SameRun-refl s = record { identity = refl; reset = refl; generation = refl; codec = refl }

pub SameRun-trans : {s t u : LineIndex} → SameRun s t → SameRun t u → SameRun s u
SameRun-trans p q = record {
  identity = q.identity ∙ p.identity;
  reset = q.reset ∙ p.reset;
  generation = q.generation ∙ p.generation;
  codec = q.codec ∙ p.codec;
}

-- the state behind one buffer whose marks were written
abbrev pub scanned : List ℕ → LineIndex → LineIndex
scanned chunk s =
    let m = note_ends (marks_of s) (newline_ends s.size chunk) in
    record s {
      index = s.index ++ m.offsets;
      size = s.size + length chunk;
      complete = m.complete;
      last_end = m.last_end;
    }

pub index_lines-scanned :
    (src : Source) (chunk : List ℕ) (s : LineIndex) {s' : LineIndex}
    → index_lines src chunk s ≡ (ok tt, s')
    → s' ≡ scanned chunk s
unfolding index_lines write_marks
index_lines-scanned src chunk s h = ground (arith, scan_lines_lem s.size chunk (marks_of s))

pub scanned-Indexed :
    (content : List ℕ) (k : ℕ) (s : LineIndex)
    → Indexed content s
    → Indexed content (scanned (take k (drop s.size content)) s)
scanned-Indexed content k s inv = record {
  framing = inv.framing;
  covered = omega (arith, length-buffer s.size k content, inv.covered);
  index = rw ends (ap (λ x. x ++ encode more) inv.index ∙ sym (encode-append old more));
  complete = rw ends (omega (arith, inv.complete, length-append old more));
  last_end = rw ends (ap (λ d. last_or d more) inv.last_end ∙ sym (last_or-append 0 old more));
}
  where
    old : List ℕ
    old = line_ends (take s.size content)

    more : List ℕ
    more = newline_ends s.size (take k (drop s.size content))

    ends : line_ends (take (s.size + length (take k (drop s.size content))) content) ≡ old ++ more
    ends = line_ends-buffer s.size k content inv.covered

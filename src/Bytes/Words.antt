-- ===== src/Bytes/Words.antt =====
-- Little-endian words, as `u64::to_le_bytes` and `u64::from_le_bytes` give them, and a file that
-- holds a sequence of them (the index file of src/log_window.rs).
use native.Mathlib.Nat.{pow-suc}
use ferrous_framework.Base.{
  ℕ, zero, suc, ◌+◌, ◌*◌, ◌/◌, ◌%◌, ◌^◌, ◌<◌, ◌≡◌, refl, ap, ◌∙◌, List, [], ◌∷◌, ◌++◌, Option, none,
  some, arith, ◌==◌, if◌then◌else◌, length, take, drop, get_elem?, All,
}

-- the `k` low bytes of `n`, least significant first
unfoldable pub le_bytes : ℕ → ℕ → List ℕ
le_bytes zero n = []
le_bytes (suc k) n = (n % 256) ∷ le_bytes k (n / 256)

unfoldable pub from_le : List ℕ → ℕ
from_le [] = 0
from_le (b ∷ bs) = b + 256 * from_le bs

-- `u64::to_le_bytes`
unfoldable pub to_le_bytes : ℕ → List ℕ
unfolding le_bytes
to_le_bytes n = le_bytes 8 n

pub length-le_bytes : (k n : ℕ) → length (le_bytes k n) ≡ k
unfolding le_bytes
length-le_bytes zero n = refl
length-le_bytes (suc k) n = ap suc (length-le_bytes k (n / 256))

pub from_le-le_bytes : (k n : ℕ) → n < 256 ^ k → from_le (le_bytes k n) ≡ n
unfolding le_bytes from_le
from_le-le_bytes zero n h = omega arith
from_le-le_bytes (suc k) n h =
    let bound : n < 256 ^ k * 256 = rw (pow-suc 256 k) at h in
    omega (arith, from_le-le_bytes k (n / 256) (omega arith))

-- `u64::from_le_bytes` reads back what `u64::to_le_bytes` wrote.
pub from_le-to_le_bytes : (n : ℕ) → n < 2 ^ 64 → from_le (to_le_bytes n) ≡ n
unfolding to_le_bytes
from_le-to_le_bytes n h = from_le-le_bytes 8 n h

-- a sequence of words, one after the other
unfoldable pub encode : List ℕ → List ℕ
unfolding to_le_bytes
encode [] = []
encode (x ∷ xs) = to_le_bytes x ++ encode xs

pub encode-append : (xs ys : List ℕ) → encode (xs ++ ys) ≡ encode xs ++ encode ys
unfolding encode
encode-append [] ys = refl
encode-append (x ∷ xs) ys = rw (encode-append xs ys)

pub encode_snoc : (xs : List ℕ) (x : ℕ) → encode (xs ++ x ∷ []) ≡ encode xs ++ to_le_bytes x
unfolding encode
encode_snoc xs x = encode-append xs (x ∷ [])

-- `seek` to a position and `read_exact` of eight bytes: `none` where fewer are left
unfoldable pub read_word : List ℕ → ℕ → Option ℕ
read_word file pos =
    let w = take 8 (drop pos file) in if length w == 8 then some (from_le w) else none

drop_nil : (n : ℕ) → drop {A = ℕ} n [] ≡ []
drop_nil zero = refl
drop_nil (suc n) = refl

read_word_nil : (pos : ℕ) → read_word [] pos ≡ none
unfolding read_word
read_word_nil pos = rw (drop_nil pos)

read_word_skip :
    (x : ℕ) (rest : List ℕ) (i : ℕ)
    → read_word (to_le_bytes x ++ rest) (suc i * 8) ≡ read_word rest (i * 8)
unfolding read_word to_le_bytes
read_word_skip x rest i = ap (read_word (to_le_bytes x ++ rest)) eight
  where
    eight : suc i * 8 ≡ suc (suc (suc (suc (suc (suc (suc (suc (i * 8))))))))
    eight = omega arith

-- The word that is read at place `i` of an encoded sequence of u64 words is its element `i`, and
-- behind the end there is none.
pub read_word-encode :
    (xs : List ℕ) (i : ℕ)
    → All (λ x. x < 2 ^ 64) xs
    → read_word (encode xs) (i * 8) ≡ get_elem? xs i
unfolding encode
read_word-encode [] i h = read_word_nil (i * 8)
read_word-encode (x ∷ xs) zero h =
    unfold read_word to_le_bytes in ap some (from_le-to_le_bytes x h.0)
read_word-encode (x ∷ xs) (suc i) h = read_word_skip x (encode xs) i ∙ read_word-encode xs i h.1

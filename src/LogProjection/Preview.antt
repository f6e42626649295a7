-- ===== src/LogProjection/Preview.antt =====
-- Where `preview` of src/log_projection.rs cuts a text.
use mathlib.Core.Path.{subst}
use ferrous_framework.Base.{
  ℕ, zero, suc, ◌<◌, ◌≤◌, ◌≡◌, refl, true, false, List, length, take, min, ◌==◌, arith, inl, inr,
  Bool-cases,
}
use ferrous_framework.LogProjection.Project.{is_char_boundary, floor_boundary, preview_text}

pub floor_boundary-le : (bytes : List ℕ) (i : ℕ) → floor_boundary bytes i ≤ i
unfolding floor_boundary
floor_boundary-le bytes zero = omega arith
floor_boundary-le bytes (suc i) = ground (arith, floor_boundary-le bytes i)

-- `shown` is the beginning of `bytes` up to the last place within `max_bytes` between two characters.
pub record IsPreview (bytes : List ℕ) (max_bytes : ℕ) (shown : List ℕ) : Type 0 where
  pub end : ℕ
  pub is : shown ≡ take end bytes
  pub within : end ≤ min (length bytes) max_bytes
  pub boundary : is_char_boundary bytes end ≡ true
  pub last : (k : ℕ) → end < k → k ≤ min (length bytes) max_bytes → is_char_boundary bytes k ≡ false

floor_boundary-boundary :
    (bytes : List ℕ) (i : ℕ) → is_char_boundary bytes (floor_boundary bytes i) ≡ true
unfolding floor_boundary is_char_boundary
floor_boundary-boundary bytes zero = refl
floor_boundary-boundary bytes (suc i) = elim (Bool-cases (is_char_boundary bytes (suc i))) [
  | inl e ↦ rw e e
  | inr e ↦ rw e (floor_boundary-boundary bytes i)
]

floor_boundary-last :
    (bytes : List ℕ) (i k : ℕ)
    → floor_boundary bytes i < k
    → k ≤ i
    → is_char_boundary bytes k ≡ false
unfolding floor_boundary
floor_boundary-last bytes zero k above le = absurd (omega arith)
floor_boundary-last bytes (suc i) k above le = elim (Bool-cases (is_char_boundary bytes (suc i))) [
  | inl e ↦ absurd (ground arith)
  | inr e ↦ elim (Bool-cases (k == suc i)) [
    | inl q ↦
        let same : suc i ≡ k = ground arith in subst (λ x. is_char_boundary bytes x ≡ false) same e
    | inr q ↦ floor_boundary-last bytes i k (ground arith) (ground arith)
  ]
]

-- `preview_text` is the beginning of a text up to a place between two of its characters, within
-- the budget and the text, and no later place within both is between two characters.
pub preview_text-IsPreview :
    (bytes : List ℕ) (max_bytes : ℕ) → IsPreview bytes max_bytes (preview_text bytes max_bytes)
unfolding preview_text
preview_text-IsPreview bytes max_bytes =
    let limit = min (length bytes) max_bytes in
    record {
      end = floor_boundary bytes limit;
      is = refl;
      within = floor_boundary-le bytes limit;
      boundary = floor_boundary-boundary bytes limit;
      last = floor_boundary-last bytes limit;
    }

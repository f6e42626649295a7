-- ===== src/Output/Map.antt =====
-- A `HashMap` with keys `(String, FerrousNativeOutputStream)` as an association list with one entry
-- for each key (src/native_runtime.rs).
use mathlib.Core.Path.{subst, sym}
use ferrous_framework.Base.{
  ℕ, ◌+◌, ◌<◌, ◌≡◌, refl, String, str_eq, eq_iff, Bool, true, false, ◌&&◌, Option, none, some, List,
  [], ◌∷◌, length, if◌then◌else◌, arith, Bool-cases, inl, inr,
}

pub data Stream : Type 0 where
  stdout stderr : Stream

abbrev pub stream_eq : Stream → Stream → Bool
stream_eq stdout stdout = true
stream_eq stderr stderr = true
stream_eq _ _ = false

abbrev pub Key : Type 0
Key = String × Stream

unfoldable pub key_eq : Key → Key → Bool
key_eq (a, s) (b, r) = str_eq a b && stream_eq s r

module _ {ℓ} {V : Type ℓ} where
  unfoldable pub get : Key → List (Key × V) → Option V
  get k [] = none
  get k ((j, v) ∷ m) = if key_eq j k then some v else get k m

  unfoldable pub insert : Key → V → List (Key × V) → List (Key × V)
  insert k v [] = (k, v) ∷ []
  insert k v ((j, w) ∷ m) =
      let rest = insert k v m in if key_eq j k then (k, v) ∷ m else (j, w) ∷ rest

  unfoldable pub remove : Key → List (Key × V) → List (Key × V)
  remove k [] = []
  remove k ((j, v) ∷ m) = let rest = remove k m in if key_eq j k then m else (j, v) ∷ rest

  abbrev pub Unique : List (Key × V) → Type ℓ
  Unique [] = Unit
  Unique ((k, v) ∷ m) = (get k m ≡ none) × Unique m

eq_of_key_eq : (j k : Key) → key_eq j k ≡ true → j ≡ k
unfolding key_eq
eq_of_key_eq (a, s) (b, r) h = λ i. (name i, stream s r h i)
  where
    name : a ≡ b
    name = (eq_iff a b).0 (ground arith)

    stream : (x y : Stream) → (str_eq a b && stream_eq x y) ≡ true → x ≡ y
    stream stdout stdout q = refl
    stream stderr stderr q = refl
    stream stdout stderr q = absurd (ground arith)
    stream stderr stdout q = absurd (ground arith)

key_eq_flip : (j k : Key) → key_eq j k ≡ false → key_eq k j ≡ false
key_eq_flip j k h = elim (Bool-cases (key_eq k j)) [
  | inl e ↦
      let q = eq_of_key_eq k j e in
      let flipped : key_eq j k ≡ true =
        subst (λ x. key_eq x k ≡ true) q (subst (λ x. key_eq k x ≡ true) (sym q) e) in
      absurd (ground arith)
  | inr e ↦ e
]

module _ {ℓ} {V : Type ℓ} where
  pub get-remove_other :
      (j k : Key) (m : List (Key × V)) → get j m ≡ none → get j (remove k m) ≡ none
  unfolding get remove
  get-remove_other j k [] h = refl
  get-remove_other j k ((i, v) ∷ m) h = ground (arith, get-remove_other j k m)

  pub Unique-remove : (k : Key) (m : List (Key × V)) → Unique m → Unique (remove k m)
  unfolding remove
  Unique-remove k [] u = tt
  Unique-remove k ((j, v) ∷ m) u = elim (Bool-cases (key_eq j k)) [
    | inl e ↦ rw e u.1
    | inr e ↦ rw e (get-remove_other j k m u.0, Unique-remove k m u.1)
  ]

  pub get-remove : (k : Key) (m : List (Key × V)) → Unique m → get k (remove k m) ≡ none
  unfolding get remove
  get-remove k [] u = refl
  get-remove k ((j, v) ∷ m) u = elim (Bool-cases (key_eq j k)) [
    | inl e ↦ rw (e, ← eq_of_key_eq j k e) u.0
    | inr e ↦ rw (e, e) (get-remove k m u.1)
  ]

  get-insert_other :
      (j k : Key) (v : V) (m : List (Key × V))
      → key_eq k j ≡ false
      → get j m ≡ none
      → get j (insert k v m) ≡ none
  unfolding get insert
  get-insert_other j k v [] e h = ground arith
  get-insert_other j k v ((i, w) ∷ m) e h = ground (arith, get-insert_other j k v m)

  pub Unique-insert : (k : Key) (v : V) (m : List (Key × V)) → Unique m → Unique (insert k v m)
  unfolding get insert
  Unique-insert k v [] u = (refl, tt)
  Unique-insert k v ((j, w) ∷ m) u = elim (Bool-cases (key_eq j k)) [
    | inl e ↦ rw (e, ← eq_of_key_eq j k e) u
    | inr e ↦ rw e (get-insert_other j k v m (key_eq_flip j k e) u.0, Unique-insert k v m u.1)
  ]

-- how many values the lists of a map have
unfoldable pub total {ℓ} : {V : Type ℓ} → List (Key × List V) → ℕ
total [] = 0
total ((k, v) ∷ m) = length v + total m

abbrev pub size_of {ℓ} : {V : Type ℓ} → Option (List V) → ℕ
size_of none = 0
size_of (some v) = length v

module _ {ℓ} {V : Type ℓ} where
  pub total-remove :
      (k : Key) (m : List (Key × List V)) → total (remove k m) + size_of (get k m) ≡ total m
  unfolding total remove get
  total-remove k [] = omega arith
  total-remove k ((j, v) ∷ m) = ground (arith, total-remove k m)

  pub total-insert :
      (k : Key) (v : List V) (m : List (Key × List V))
      → total (insert k v m) + size_of (get k m) ≡ total m + length v
  unfolding total insert get
  total-insert k v [] = omega arith
  total-insert k v ((j, w) ∷ m) = ground (arith, total-insert k v m)

  -- every list of the map has an element
  abbrev pub Filled : List (Key × List V) → Type 0
  Filled [] = Unit
  Filled ((k, v) ∷ m) = (0 < length v) × Filled m

  pub Filled-remove : (k : Key) (m : List (Key × List V)) → Filled m → Filled (remove k m)
  unfolding remove
  Filled-remove k [] f = tt
  Filled-remove k ((j, v) ∷ m) f = elim (Bool-cases (key_eq j k)) [
    | inl e ↦ rw e f.1
    | inr e ↦ rw e (f.0, Filled-remove k m f.1)
  ]

  pub Filled-insert :
      (k : Key) (v : List V) (m : List (Key × List V))
      → 0 < length v
      → Filled m
      → Filled (insert k v m)
  unfolding insert
  Filled-insert k v [] h f = (h, tt)
  Filled-insert k v ((j, w) ∷ m) h f = elim (Bool-cases (key_eq j k)) [
    | inl e ↦ rw e (h, f.1)
    | inr e ↦ rw e (f.0, Filled-insert k v m h f.1)
  ]

  -- a map without elements has no key
  pub get_of_total : (k : Key) (m : List (Key × List V)) → Filled m → total m ≡ 0 → get k m ≡ none
  unfolding total get
  get_of_total k [] f h = refl
  get_of_total k ((j, v) ∷ m) f h = absurd (omega (arith, f.0))

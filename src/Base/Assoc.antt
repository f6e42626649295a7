-- ===== src/Base/Assoc.antt =====
-- A `HashMap<String, V>` as an association list with one entry for each key.
use ferrous_framework.Base.Tests.{if◌then◌else◌, Bool-cases}
use mathlib.Core.Logic.{inl, inr}
use Prim.Native.String.{String}
use text.Mathlib.Text.{◌==◌}
use text.Mathlib.TextEquality.{eq_iff}
use mathlib.Core.Path.{◌≡◌, refl}
use native.Mathlib.Omega.{arith}
use mathlib.Core.Option.{Option, none, some}
use mathlib.Core.List.{List, [], ◌∷◌}

module _ {ℓ} {V : Type ℓ} where
  -- `map.get(k)`
  unfoldable pub lookup : String → List (String × V) → Option V
  lookup k [] = none
  lookup k ((j, v) ∷ m) = if j == k then some v else lookup k m

module _ {ℓ} {V : Type ℓ} where
  -- `map.insert(key, value)`
  unfoldable pub put : String → V → List (String × V) → List (String × V)
  put key value [] = (key, value) ∷ []
  put key value (entry ∷ rest) =
      let behind = put key value rest in
      if entry.0 == key then (key, value) ∷ rest else entry ∷ behind

  pub lookup-put :
      (key other : String) (value : V) (entries : List (String × V))
      → lookup other (put key value entries)
        ≡ (if key == other then some value else lookup other entries)
  unfolding put lookup
  lookup-put key other value [] = refl
  lookup-put key other value ((name, old) ∷ rest) =
      let same = eq_iff key other in
      let here = eq_iff name key in
      let there = eq_iff name other in ground (arith, lookup-put key other value rest)

  pub lookup-put_self :
      (key : String) (value : V) (entries : List (String × V))
      → lookup key (put key value entries) ≡ some value
  lookup-put_self key value entries =
      let same = (eq_iff key key).1 refl in ground (arith, lookup-put key key value entries)

  -- after a `put`, a key has the new value or the one it had
  pub put_cases {κ} :
      (P : Type κ) (key other : String) (value : V) (entries : List (String × V)) {v : V}
      → lookup other (put key value entries) ≡ some v
      → (key ≡ other → value ≡ v → P)
      → (lookup other entries ≡ some v → P)
      → P
  put_cases P key other value entries {v} at new old = elim (Bool-cases (key == other)) [
    | inl same ↦
        let is_new : value ≡ v = ground (arith, lookup-put key other value entries) in
        new ((eq_iff key other).0 same) is_new
    | inr different ↦ old (ground (arith, lookup-put key other value entries))
  ]

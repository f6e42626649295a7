-- ===== src/MsgPack/Shallow.antt =====
-- How deep a MessagePack value may be (src/msgpack_observation.rs).
use ferrous_framework.Base.{
  ℕ, suc, ◌+◌, ◌≤◌, max, ◌≡◌, refl, String, Bool, true, false, some, [], Result, ok, ok_or, ensure,
  leb, leb→le, arith, >>=_elim, ensure-eq-ok,
}
use ferrous_framework.Json.{Value, array, Items, Fields, end}
use ferrous_framework.MsgPack.Normalize.{
  Error, too_deep, unreachable, ValueRef, empty, boolean, positive, negated, single, double, text,
  binary, extension, values, pairs, Refs, no_refs, ref, Pairs, no_pairs, pair, Printer, is_plain,
  key_text, insert_field, map_value, within, normalize, normalize_items, normalize_fields,
  normalize_entries,
}

-- the number of arrays and maps around the innermost value
unfoldable mutual
  pub height : ValueRef → ℕ
  height (values xs) = height_items xs
  height (pairs ps) = height_pairs ps
  height _ = 0

  pub height_items : Refs → ℕ
  height_items no_refs = 0
  height_items (ref x xs) = max (suc (height x)) (height_items xs)

  -- a key is a level deeper too, if it is not a text
  pub height_pairs : Pairs → ℕ
  height_pairs no_pairs = 0
  height_pairs (pair k v ps) = max (max (suc (height k)) (suc (height v))) (height_pairs ps)

key_text-height : (k : ValueRef) (s : String) → key_text k ≡ some s → height k ≡ 0
unfolding height
key_text-height (text t) s h = refl
key_text-height empty s h = refl
key_text-height (boolean b) s h = refl
key_text-height (positive n) s h = refl
key_text-height (negated n) s h = refl
key_text-height (single b) s h = refl
key_text-height (double b) s h = refl
key_text-height (binary b) s h = refl
key_text-height (extension c b) s h = refl
key_text-height (values xs) s h = absurd (ground arith)
key_text-height (pairs ps) s h = absurd (ground arith)

module _ (p : Printer) where
  pub within_elim :
      {P : Type 0} (depth : ℕ) (r : Result Error Value) {w : Value}
      → within p depth r ≡ ok w
      → (depth ≤ 64 → r ≡ ok w → P)
      → P
  within_elim {P} depth r h go =
      >>=_elim P (ensure (leb depth 64) too_deep) (λ _. r) h
        λ _ e g. go (leb→le depth 64 (ensure-eq-ok (leb depth 64) too_deep e)) g

  pub map_value_elim :
      {P : Type 0} (b : Bool) (fields : Result Error Fields) (entries : Result Error Items)
      {w : Value}
      → map_value p b fields entries ≡ ok w
      → ((fs : Fields) → fields ≡ ok fs → P)
      → ((es : Items) → entries ≡ ok es → P)
      → P
  map_value_elim {P} true fields entries h f g = >>=_elim P fields _ h λ fs e _. f fs e
  map_value_elim {P} false fields entries h f g = >>=_elim P entries _ h λ es e _. g es e

  leaf : (depth : ℕ) (r : Result Error Value) {w : Value} → within p depth r ≡ ok w → depth + 0 ≤ 64
  leaf depth r h = within_elim depth r h λ le _. omega (arith, le)

  mutual
    unfolding normalize height

    value_shallow :
        (depth : ℕ) (v : ValueRef) (w : Value) → normalize p depth v ≡ ok w → depth + height v ≤ 64
    value_shallow depth empty w h = leaf depth _ h
    value_shallow depth (boolean b) w h = leaf depth _ h
    value_shallow depth (positive n) w h = leaf depth _ h
    value_shallow depth (negated n) w h = leaf depth _ h
    value_shallow depth (single b) w h = leaf depth _ h
    value_shallow depth (double b) w h = leaf depth _ h
    value_shallow depth (text t) w h = leaf depth _ h
    value_shallow depth (binary b) w h = leaf depth _ h
    value_shallow depth (extension c b) w h = leaf depth _ h
    value_shallow depth (values xs) w h = within_elim depth _ h λ le g.
        >>=_elim (depth + height_items xs ≤ 64) (normalize_items p (suc depth) xs)
          (λ ys. ok (array ys)) g λ ys e _. items_shallow depth xs ys le e
    value_shallow depth (pairs ps) w h = within_elim depth _ h λ le g.
        map_value_elim (is_plain [] ps) (normalize_fields p (suc depth) ps end)
          (normalize_entries p (suc depth) ps) g (λ fs e. fields_shallow depth ps end fs le e)
          (λ es e. entries_shallow depth ps es le e)

    items_shallow :
        (depth : ℕ) (xs : Refs) (ys : Items)
        → depth ≤ 64
        → normalize_items p (suc depth) xs ≡ ok ys
        → depth + height_items xs ≤ 64
    items_shallow depth no_refs ys le h = omega (arith, le)
    items_shallow depth (ref x xs) ys le h =
        >>=_elim (depth + max (suc (height x)) (height_items xs) ≤ 64) (normalize p (suc depth) x) _
          h
          λ y e h₁.
            >>=_elim (depth + max (suc (height x)) (height_items xs) ≤ 64)
              (normalize_items p (suc depth) xs) _ h₁
              λ zs f _.
                omega (arith, value_shallow (suc depth) x y e, items_shallow depth xs zs le f)

    fields_shallow :
        (depth : ℕ) (ps : Pairs) (fs gs : Fields)
        → depth ≤ 64
        → normalize_fields p (suc depth) ps fs ≡ ok gs
        → depth + height_pairs ps ≤ 64
    fields_shallow depth no_pairs fs gs le h = omega (arith, le)
    fields_shallow depth (pair k v ps) fs gs le h =
        let Goal = depth + max (max (suc (height k)) (suc (height v))) (height_pairs ps) ≤ 64 in
        >>=_elim Goal (ok_or (key_text k) unreachable) _ h λ key e h₁.
          >>=_elim Goal (normalize p (suc depth) v) _ h₁ λ w f h₂.
            let text_key = key_text-height k key (ground arith) in
            omega (
              arith,
              text_key,
              value_shallow (suc depth) v w f,
              fields_shallow depth ps (insert_field key w fs) gs le h₂,
            )

    entries_shallow :
        (depth : ℕ) (ps : Pairs) (es : Items)
        → depth ≤ 64
        → normalize_entries p (suc depth) ps ≡ ok es
        → depth + height_pairs ps ≤ 64
    entries_shallow depth no_pairs es le h = omega (arith, le)
    entries_shallow depth (pair k v ps) es le h =
        let Goal = depth + max (max (suc (height k)) (suc (height v))) (height_pairs ps) ≤ 64 in
        >>=_elim Goal (normalize p (suc depth) k) _ h λ a e h₁.
          >>=_elim Goal (normalize p (suc depth) v) _ h₁ λ b f h₂.
            >>=_elim Goal (normalize_entries p (suc depth) ps) _ h₂ λ rest g _. omega (
              arith,
              value_shallow (suc depth) k a e,
              value_shallow (suc depth) v b f,
              entries_shallow depth ps rest le g,
            )

  -- When `normalize` succeeds on a value at some depth, then the depth and the number of arrays
  -- and maps that are nested in the value, with a level for what is in the innermost, are at most
  -- 64.
  pub normalize-height :
      (depth : ℕ) (v : ValueRef) (w : Value) → normalize p depth v ≡ ok w → depth + height v ≤ 64
  normalize-height depth v w h = value_shallow depth v w h

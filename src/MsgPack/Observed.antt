-- ===== src/MsgPack/Observed.antt =====
-- What a MessagePack value is as JSON (src/msgpack_observation.rs).
use ferrous_framework.Base.{
  ℕ, suc, ◌^◌, ◌/◌, ◌%◌, ◌==◌, ◌≤◌, ◌≡◌, refl, sym, ◌∙◌, String, str_eq, Bool, true, false, ◌||◌,
  Option, none, some, List, [], Result, ok, err, ok_or, ltb, leb, leb→le, length, take, drop, arith,
  inl, inr, Bool-cases, >>=_elim,
}
use ferrous_framework.Json.{
  Number, unsigned, negative, float, Value, null, bool, number, string, array, object, Items, nil,
  cons, Fields, end, field, get,
}
use ferrous_framework.LogProjection.Pointer.{str_lt}
use ferrous_framework.MsgPack.Normalize.{
  Error, unreachable, invalid_utf8, invalid_timestamp, ValueRef, empty, boolean, positive, negated,
  single, double, text, binary, extension, values, pairs, Refs, no_refs, ref, Pairs, no_pairs, pair,
  Printer, insert_field, max_safe, tagged, is_finite, from_be_bytes, signed_code, key_text,
  with_key, is_plain, safe_or_tagged, float_value, timestamp_value, timestamp, extension_value,
  normalize, normalize_items, normalize_fields, normalize_entries,
}
use ferrous_framework.MsgPack.Shallow.{within_elim}

-- a number that a reader with 53 bits of precision keeps
abbrev pub IsSafe : Number → Type 0
IsSafe (unsigned n) = n ≤ max_safe
IsSafe (negative n) = n ≤ max_safe
IsSafe (float bits) = is_finite bits ≡ true

-- the names of the observations
abbrev pub is_tag : String → Bool
is_tag name =
    str_eq name "integer"
    || str_eq name "float64"
    || str_eq name "binary"
    || str_eq name "timestamp"
    || str_eq name "extension"
    || str_eq name "map"

-- a `$fws` is the name of an observation
abbrev pub IsTag : Option Value → Type 0
IsTag none = Unit
IsTag (some (string name)) = is_tag name ≡ true
IsTag (some _) = ⊥

-- Every number is safe, and every `$fws` in an object names an observation.
unfoldable mutual
  pub IsObserved : Value → Type 0
  IsObserved null = Unit
  IsObserved (bool b) = Unit
  IsObserved (number n) = IsSafe n
  IsObserved (string s) = Unit
  IsObserved (array xs) = AllObserved xs
  IsObserved (object fs) = IsTag (get "$fws" fs) × FieldsObserved fs

  pub AllObserved : Items → Type 0
  AllObserved nil = Unit
  AllObserved (cons x xs) = IsObserved x × AllObserved xs

  pub FieldsObserved : Fields → Type 0
  FieldsObserved end = Unit
  FieldsObserved (field k v fs) = IsObserved v × FieldsObserved fs

insert_field-FieldsObserved :
    (k : String) (v : Value) (fs : Fields)
    → IsObserved v
    → FieldsObserved fs
    → FieldsObserved (insert_field k v fs)
unfolding insert_field IsObserved
insert_field-FieldsObserved k v end h hs = (h, tt)
insert_field-FieldsObserved k v (field j w fs) h hs = elim (Bool-cases (str_eq j k)) [
  | inl e ↦ rw (e, insert_field) (h, hs.1)
  | inr e ↦ elim (Bool-cases (str_lt k j)) [
    | inl f ↦ rw (e, f, insert_field) (h, hs)
    | inr f ↦ rw (e, f, insert_field) (hs.0, insert_field-FieldsObserved k v fs h hs.1)
  ]
]

-- a key other than `$fws` does not bring one
get-insert_field :
    (k : String) (v : Value) (fs : Fields)
    → str_eq k "$fws" ≡ false
    → get "$fws" fs ≡ none
    → get "$fws" (insert_field k v fs) ≡ none
unfolding insert_field get
get-insert_field k v end e h = rw e refl
get-insert_field k v (field j w fs) e h = elim (Bool-cases (str_eq j "$fws")) [
  | inl f ↦ absurd (ground arith)
  | inr f ↦ let later = get-insert_field k v fs e in ground arith
]

module _ (p : Printer) where
  safe_or_tagged-IsObserved :
      (n : Number) (size : ℕ) → (size ≤ max_safe → IsSafe n) → IsObserved (safe_or_tagged p n size)
  unfolding IsObserved get
  safe_or_tagged-IsObserved n size h = elim (Bool-cases (leb size max_safe)) [
    | inl e ↦ rw e (h (leb→le size max_safe e))
    | inr e ↦ rw e (refl, (tt, (tt, tt)))
  ]

  float_value-IsObserved : (bits : ℕ) → IsObserved (float_value p bits)
  unfolding IsObserved get
  float_value-IsObserved bits = elim (Bool-cases (is_finite bits)) [
    | inl e ↦ rw e e
    | inr e ↦ rw e (refl, (tt, (tt, tt)))
  ]

  of_ok : (v w : Value) → ◌≡◌ {A = Result Error Value} (ok v) (ok w) → IsObserved v → IsObserved w
  of_ok v w e h = let same : v ≡ w = ground arith in rw (sym same) h

  of_items :
      (xs ys : Items)
      → ◌≡◌ {A = Result Error Items} (ok xs) (ok ys)
      → AllObserved xs
      → AllObserved ys
  of_items xs ys e h = let same : xs ≡ ys = ground arith in rw (sym same) h

  -- the key of a plain map
  plain_key :
      (seen : List String) (k : ValueRef) (v : ValueRef) (ps : Pairs) (key : String)
      → is_plain seen (pair k v ps) ≡ true
      → key_text k ≡ some key
      → (str_eq key "$fws" ≡ false) × (is_plain (with_key (key_text k) seen) ps ≡ true)
  unfolding is_plain
  plain_key seen k v ps key h e = (ground arith, ground arith)

  timestamp_value-IsObserved :
      (seconds nanoseconds : ℕ) (w : Value)
      → timestamp_value p seconds nanoseconds ≡ ok w
      → IsObserved w
  unfolding IsObserved get
  timestamp_value-IsObserved seconds nanoseconds w h =
      elim (Bool-cases (ltb nanoseconds 1000000000)) [
        | inl e ↦
            let small : nanoseconds ≤ max_safe = ground arith in
            of_ok _ w (rw e at h) (refl, (tt, (small, (tt, tt))))
        | inr e ↦ absurd (ground arith)
      ]

  timestamp-IsObserved : (bytes : List ℕ) (w : Value) → timestamp p bytes ≡ ok w → IsObserved w
  unfolding timestamp
  timestamp-IsObserved bytes w h =
      let packed = from_be_bytes 0 bytes in
      elim (Bool-cases (length bytes == 4)) [
        | inl e ↦ timestamp_value-IsObserved packed 0 w (sym (rw (e, timestamp) refl) ∙ h)
        | inr e ↦ elim (Bool-cases (length bytes == 8)) [
          | inl f ↦
              timestamp_value-IsObserved (packed % 2 ^ 34) (packed / 2 ^ 34) w
                (sym (rw (e, f, timestamp) refl) ∙ h)
          | inr f ↦ elim (Bool-cases (length bytes == 12)) [
            | inl g ↦
                timestamp_value-IsObserved (from_be_bytes 0 (drop 4 bytes))
                  (from_be_bytes 0 (take 4 bytes)) w (sym (rw (e, f, g, timestamp) refl) ∙ h)
            | inr g ↦
                let wrong : timestamp p bytes ≡ err invalid_timestamp =
                  rw (e, f, g, timestamp) refl in
                let never : err invalid_timestamp ≡ ok w = sym wrong ∙ h in absurd (ground arith)
          ]
        ]
      ]

  extension_value-IsObserved :
      (code : ℕ) (bytes : List ℕ) (w : Value) → extension_value p code bytes ≡ ok w → IsObserved w
  unfolding IsObserved get
  extension_value-IsObserved code bytes w h = elim (Bool-cases (code == 255)) [
    | inl e ↦ timestamp-IsObserved bytes w (rw e at h)
    | inr e ↦
        let small : IsSafe (signed_code code) = signed_code-IsSafe in
        of_ok _ w (rw e at h) (refl, (tt, (small, (tt, tt))))
  ]
    where
      signed_code-IsSafe : IsSafe (signed_code code)
      signed_code-IsSafe = elim (Bool-cases (ltb code 128)) [
        | inl e ↦ rw e (ground arith)
        | inr e ↦ rw e (omega arith)
      ]

  mutual
    unfolding normalize IsObserved get

    value_holds : (depth : ℕ) (v : ValueRef) (w : Value) → normalize p depth v ≡ ok w → IsObserved w
    value_holds depth empty w h = within_elim p depth _ h λ _ g. of_ok _ w g tt
    value_holds depth (boolean b) w h = within_elim p depth _ h λ _ g. of_ok _ w g tt
    value_holds depth (positive n) w h =
        within_elim p depth _ h
          λ _ g. of_ok _ w g (safe_or_tagged-IsObserved (unsigned n) n (λ le. le))
    value_holds depth (negated n) w h =
        within_elim p depth _ h
          λ _ g. of_ok _ w g (safe_or_tagged-IsObserved (negative n) n (λ le. le))
    value_holds depth (single bits) w h =
        within_elim p depth _ h λ _ g. of_ok _ w g (float_value-IsObserved (p.widen bits))
    value_holds depth (double bits) w h =
        within_elim p depth _ h λ _ g. of_ok _ w g (float_value-IsObserved bits)
    value_holds depth (text t) w h = within_elim p depth _ h λ _ g.
        >>=_elim (IsObserved w) (ok_or t invalid_utf8) (λ s. ok (string s)) g
          λ s _ f. of_ok _ w f tt
    value_holds depth (binary bytes) w h =
        within_elim p depth _ h λ _ g. of_ok _ w g (refl, (tt, (tt, tt)))
    value_holds depth (extension code bytes) w h =
        within_elim p depth _ h λ _ g. extension_value-IsObserved code bytes w g
    value_holds depth (values xs) w h = within_elim p depth _ h λ _ g.
        >>=_elim (IsObserved w) (normalize_items p (suc depth) xs) (λ ys. ok (array ys)) g
          λ ys e f. of_ok _ w f (items_hold (suc depth) xs ys e)
    value_holds depth (pairs ps) w h = within_elim p depth _ h λ _ g.
        let fields = normalize_fields p (suc depth) ps end in
        let entries = normalize_entries p (suc depth) ps in
        elim (Bool-cases (is_plain [] ps)) [
          | inl e ↦
              >>=_elim (IsObserved w) fields (λ fs. ok (object fs)) (rw e at g)
                λ fs f k.
                  let (none_there, all) = fields_hold (suc depth) ps [] end fs e refl tt f in
                  of_ok (object fs) w k (rw none_there tt, all)
          | inr e ↦
              >>=_elim (IsObserved w) entries (λ es. ok (tagged "map" "entries" (array es)))
                (rw e at g)
                λ es f k. of_ok _ w k (refl, (tt, (entries_hold (suc depth) ps es f, tt)))
        ]

    items_hold :
        (depth : ℕ) (xs : Refs) (ys : Items) → normalize_items p depth xs ≡ ok ys → AllObserved ys
    items_hold depth no_refs ys h = of_items nil ys h tt
    items_hold depth (ref x xs) ys h = >>=_elim (AllObserved ys) (normalize p depth x) _ h λ y e h₁.
        >>=_elim (AllObserved ys) (normalize_items p depth xs) _ h₁
          λ zs f h₂. of_items (cons y zs) ys h₂ (value_holds depth x y e, items_hold depth xs zs f)

    fields_hold :
        (depth : ℕ) (ps : Pairs) (seen : List String) (fs gs : Fields)
        → is_plain seen ps ≡ true
        → get "$fws" fs ≡ none
        → FieldsObserved fs
        → normalize_fields p depth ps fs ≡ ok gs
        → (get "$fws" gs ≡ none) × FieldsObserved gs
    fields_hold depth no_pairs seen fs gs plain no_tag all h =
        let same : fs ≡ gs = ground arith in rw (sym same) (no_tag, all)
    fields_hold depth (pair k v ps) seen fs gs plain no_tag all h =
        let Goal = (get "$fws" gs ≡ none) × FieldsObserved gs in
        >>=_elim Goal (ok_or (key_text k) unreachable) _ h λ key e h₁.
          >>=_elim Goal (normalize p depth v) _ h₁ λ w f h₂.
            let (other, rest) = plain_key seen k v ps key plain (ground arith) in
            fields_hold depth ps (with_key (key_text k) seen) (insert_field key w fs) gs rest
              (get-insert_field key w fs other no_tag)
              (insert_field-FieldsObserved key w fs (value_holds depth v w f) all) h₂

    entries_hold :
        (depth : ℕ) (ps : Pairs) (es : Items)
        → normalize_entries p depth ps ≡ ok es
        → AllObserved es
    entries_hold depth no_pairs es h = of_items nil es h tt
    entries_hold depth (pair k v ps) es h =
        >>=_elim (AllObserved es) (normalize p depth k) _ h λ a e h₁.
          >>=_elim (AllObserved es) (normalize p depth v) _ h₁ λ b f h₂.
            >>=_elim (AllObserved es) (normalize_entries p depth ps) _ h₂ λ rest g h₃.
              of_items (cons (array (cons a (cons b nil))) rest) es h₃ (
                (value_holds depth k a e, (value_holds depth v b f, tt)),
                entries_hold depth ps rest g,
              )

  pub normalize-IsObserved :
      (depth : ℕ) (v : ValueRef) (w : Value) → normalize p depth v ≡ ok w → IsObserved w
  normalize-IsObserved depth v w h = value_holds depth v w h

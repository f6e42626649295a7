-- ===== src/LogProjection/Bounded.antt =====
-- What `project_record` of src/log_projection.rs returns stays within its budgets.
use mathlib.Core.Path.{subst}
use ferrous_framework.Base.{
  ℕ, ◌≤◌, ◌≡◌, refl, String, Bool, true, false, ◌||◌, ◌&&◌, Option, none, some, ap, ◌∙◌, ◌⊎◌, List,
  [], ◌∷◌, ◌++◌, Result, ok, err, ok_or, ensure, ltb, leb, ◌==◌, if◌then◌else◌, length, take, min,
  All, All-append, length-append, length-take, arith, inl, inr, Option-cases, ◌>>=◌ as ◌⟫◌,
}
use ferrous_framework.Json.{Value, null, bool, number, string, array, object}
use ferrous_framework.LogIndex.Defs.{
  Codec, text, json, messagepack, is_messagepack, Error, incomplete_frame,
}
use ferrous_framework.LogProjection.Defs.{
  RawReference, Omission, RecordProjection, parse_bytes, saturating_add, usize_max,
}
use ferrous_framework.LogProjection.Pointer.{utf8_len}
use ferrous_framework.LogProjection.Preview.{floor_boundary-le}
use ferrous_framework.LogProjection.Project.{
  Serde, Candidate, floor_boundary, preview_text, preview, to_vec, candidates, sort_candidates,
  remove_at, omission_of, omit, omit_fields, project_value, project_json, is_text, project_plain,
  check_record, project_normalized, project_frame, project_record,
}

abbrev pub ShortPointers : List Omission → Type 0
ShortPointers os = All (λ o. utf8_len o.pointer ≤ 1024) os

-- `shown` is all of a record that is no MessagePack: the text of all its bytes, or, unless the codec is text, the
-- serialization of the value that they hold.
abbrev pub IsAll : Serde → Codec → List ℕ → List ℕ → Type 0
IsAll serde codec content shown =
    (shown ≡ serde.lossy content)
    ⊎ ((is_text serde codec ≡ false)
        × (v : Value) × (serde.from_slice content ≡ some v)
        × (serde.to_json v ≡ some shown))

-- the frame is the whole record, and `shown` is all of the JSON text of its value
abbrev pub IsAllFrame : Serde → ℕ → List ℕ → List ℕ → Type 0
IsAllFrame serde parse content shown =
    (v : Value) × (normalized : List ℕ) × (serde.decode_frame content (min parse parse_bytes)
      ≡ ok (some (length content, v)))
    × (serde.to_json v ≡ some normalized)
    × IsAll serde json normalized shown

-- `shown` is all of the record, whatever its codec.
abbrev pub IsWhole : Serde → Codec → ℕ → List ℕ → List ℕ → Type 0
IsWhole serde messagepack parse content shown = IsAllFrame serde parse content shown
IsWhole serde codec parse content shown = IsAll serde codec content shown

-- `r` belongs to `raw` and is within the budgets; a record without a diagnostic leaves nothing out, and its text is
-- whole as `W` says.
pub record IsBounded (W : List ℕ → Type 0) (raw : RawReference) (max_bytes : ℕ)
    (r : RecordProjection) : Type 0 where
  pub raw_is : r.raw ≡ raw
  pub short : length r.text ≤ max_bytes
  pub few : length r.omissions ≤ 128
  pub pointers : ShortPointers r.omissions
  pub whole : r.diagnostic ≡ none → (r.omissions ≡ []) × W r.text

ok_or-some {ℓ} : {A : Type ℓ} (o : Option A) (e : Error) {a : A} → ok_or o e ≡ ok a → o ≡ some a
ok_or-some none e h = absurd (ground arith)
ok_or-some (some a) e h = ground arith

take-length : (xs : List ℕ) → take (length xs) xs ≡ xs
take-length [] = refl
take-length (x ∷ xs) = ap (◌∷◌ x) (take-length xs)

eq_of_ensure : (m n : ℕ) (e : Error) {u : Unit {0}} → ensure (m == n) e ≡ ok u → m ≡ n
eq_of_ensure m n e h = ground arith

preview-IsBounded :
    (W : List ℕ → Type 0) (serde : Serde) (bytes : List ℕ) (raw : RawReference) (max_bytes : ℕ)
    (reason : String)
    → IsBounded W raw max_bytes (preview serde bytes raw max_bytes reason)
unfolding preview preview_text
preview-IsBounded W serde bytes raw max_bytes reason =
    let end = min (length bytes) max_bytes in
    record {
      raw_is = refl;
      short =
          omega (arith, floor_boundary-le bytes end, length-take (floor_boundary bytes end) bytes);
      few = omega arith;
      pointers = tt;
      whole = λ q. absurd (ground arith);
    }

whole-IsBounded :
    (W : List ℕ → Type 0) (bytes : List ℕ) (raw : RawReference) (max_bytes : ℕ)
    → leb (length bytes) max_bytes ≡ true
    → W bytes
    → IsBounded W raw max_bytes
        (record { text = bytes; raw = raw; omissions = []; diagnostic = none })
whole-IsBounded W bytes raw max_bytes h w = record {
  raw_is = refl;
  short = ground arith;
  few = omega arith;
  pointers = tt;
  whole = λ _. (refl, w);
}

module _ (W : List ℕ → Type 0) (serde : Serde) (raw : RawReference) (max_bytes : ℕ) where
  abbrev Bounds : Result Error RecordProjection → Type 0
  Bounds (ok r) = IsBounded W raw max_bytes r
  Bounds (err e) = Unit

  bind-Bounds {ℓ} :
      {A : Type ℓ} (m : Result Error A) (f : A → Result Error RecordProjection)
      → ((a : A) → m ≡ ok a → Bounds (f a))
      → Bounds (m ⟫ f)
  bind-Bounds (ok a) f h = h a refl
  bind-Bounds (err e) f h = tt

  if-Bounds :
      (b : Bool) (x y : Result Error RecordProjection)
      → (b ≡ true → Bounds x)
      → (b ≡ false → Bounds y)
      → Bounds (if b then x else y)
  if-Bounds true x y h k = h refl
  if-Bounds false x y h k = k refl

  omit-Bounds :
      (summary : RecordProjection) (cs : List Candidate) (os : List Omission) (value : Value)
      → IsBounded W raw max_bytes summary
      → ShortPointers os
      → Bounds (omit serde max_bytes raw summary cs os value)
  unfolding omit
  omit-Bounds summary [] os value s short = s
  omit-Bounds summary (c ∷ cs) os value s short =
      let noted = os ++ omission_of serde c ∷ [] in
      if-Bounds (leb 128 (length os) || ltb 1024 (utf8_len c.pointer)) _ _ (λ _. s)
        λ room. bind-Bounds (remove_at serde c.pointer value) _ λ smaller _.
          bind-Bounds (to_vec serde smaller) _ λ compact _.
            let pointers : ShortPointers noted =
              All-append (λ o. utf8_len o.pointer ≤ 1024) os (omission_of serde c ∷ []) short
                (ground arith, tt) in
            if-Bounds (leb (length compact) max_bytes) _ _
              (λ fits. record {
                raw_is = refl;
                short = ground arith;
                few = ground (arith, length-append os (omission_of serde c ∷ []));
                pointers = pointers;
                whole = λ q. absurd (ground arith);
              })
              λ _. omit-Bounds summary cs noted smaller s pointers

  omit_fields-Bounds :
      (summary : RecordProjection) (value : Value)
      → IsBounded W raw max_bytes summary
      → Bounds (omit_fields serde max_bytes raw summary value)
  unfolding omit_fields
  omit_fields-Bounds summary (object fs) s =
      bind-Bounds (candidates serde "" fs) _
        λ items _. omit-Bounds summary (sort_candidates items) [] (object fs) s tt
  omit_fields-Bounds summary null s = s
  omit_fields-Bounds summary (bool b) s = s
  omit_fields-Bounds summary (number n) s = s
  omit_fields-Bounds summary (string x) s = s
  omit_fields-Bounds summary (array xs) s = s

  project_json-Bounds :
      (content bytes : List ℕ)
      → ((v : Value) (shown : List ℕ)
          → serde.from_slice content ≡ some v
          → serde.to_json v ≡ some shown
          → W shown)
      → Bounds (project_json serde content bytes raw max_bytes)
  unfolding project_json project_value
  project_json-Bounds content bytes all = elim (Option-cases (serde.from_slice content)) [
    | inl q ↦ rw (q, Bounds) (preview-IsBounded W serde bytes raw max_bytes "invalid_json")
    | inr (value, q) ↦
        rw (q, Bounds)
          (bind-Bounds (to_vec serde value) _ λ compact printed.
            if-Bounds (leb (length compact) max_bytes) _ _
              (λ fits.
                whole-IsBounded W compact raw max_bytes fits
                  (all value compact q (ok_or-some _ _ printed)))
              λ _.
                omit_fields-Bounds _ value
                  (preview-IsBounded W serde bytes raw max_bytes "structured_summary_required"))
  ]

of-Bounds :
    (W : List ℕ → Type 0) (serde : Serde) (raw : RawReference) (max_bytes : ℕ)
    (m : Result Error RecordProjection) {r : RecordProjection}
    → Bounds W serde raw max_bytes m
    → m ≡ ok r
    → IsBounded W raw max_bytes r
of-Bounds W serde raw max_bytes (ok x) {r} b h = subst (IsBounded W raw max_bytes) same b
  where
    same : x ≡ r
    same = ground arith
of-Bounds W serde raw max_bytes (err e) {r} b h = absurd (ground arith)

-- only the reference, and what a whole text means, change at the end of the recursive call
with_raw-Bounds :
    (W V : List ℕ → Type 0) (serde : Serde) (raw other : RawReference) (max_bytes : ℕ)
    (m : Result Error RecordProjection)
    → ((shown : List ℕ) → V shown → W shown)
    → Bounds V serde other max_bytes m
    → Bounds W serde raw max_bytes (m ⟫ λ projected. ok (record projected { raw = raw }))
with_raw-Bounds W V serde raw other max_bytes (ok r) more b = record {
  raw_is = refl;
  short = b.short;
  few = b.few;
  pointers = b.pointers;
  whole = λ q. let (nothing, w) = b.whole q in (nothing, more r.text w);
}
with_raw-Bounds W V serde raw other max_bytes (err e) more b = tt

module _ (serde : Serde) (max_bytes : ℕ) (word : max_bytes ≤ usize_max) where
  -- what is read as text is all of a record that is short enough
  all_read :
      (content : List ℕ)
      → length content ≤ max_bytes
      → take (min (length content) (saturating_add max_bytes 4)) content ≡ content
  all_read content h =
      let n : min (length content) (saturating_add max_bytes 4) ≡ length content = ground arith in
      rw n (take-length content)

  project_plain-Bounds :
      (raw : RawReference) (content : List ℕ) (codec : Codec) (parse : ℕ)
      → Bounds
          (IsAll serde codec content)
          serde
          raw
          max_bytes
          (project_plain serde content raw codec max_bytes parse)
  unfolding project_plain
  project_plain-Bounds raw content codec parse =
      let W = IsAll serde codec content in
      let bytes = serde.lossy (take (min (length content) (saturating_add max_bytes 4)) content) in
      if-Bounds W serde raw max_bytes
        (leb (length content) max_bytes && leb (length bytes) max_bytes) _ _
        (λ fits.
          whole-IsBounded W bytes raw max_bytes (ground arith)
            (inl (ap serde.lossy (all_read content (ground arith)))))
        λ _.
          if-Bounds W serde raw max_bytes (is_text serde codec) _ _
            (λ _. preview-IsBounded W serde bytes raw max_bytes "record_too_large")
            λ other.
              if-Bounds W serde raw max_bytes (ltb parse (length content)) _ _
                (λ _. preview-IsBounded W serde bytes raw max_bytes "parse_budget_exceeded")
                λ _.
                  project_json-Bounds W serde raw max_bytes content bytes
                    λ v shown reads prints. inr (other, v, reads, prints)

  project_frame-Bounds :
      (content : List ℕ) (raw : RawReference) (parse : ℕ)
      → Bounds
          (IsAllFrame serde parse content)
          serde
          raw
          max_bytes
          (project_frame serde content raw max_bytes parse)
  unfolding project_frame project_normalized
  project_frame-Bounds content raw parse =
      let W = IsAllFrame serde parse content in
      bind-Bounds W serde raw max_bytes (serde.decode_frame content (min parse parse_bytes)) _
        λ found decoded.
          bind-Bounds W serde raw max_bytes (ok_or found incomplete_frame) _
            λ (consumed, value) one.
              bind-Bounds W serde raw max_bytes
                (ensure (consumed == length content) incomplete_frame) _
                λ _ all.
                  bind-Bounds W serde raw max_bytes (to_vec serde value) _ λ normalized printed.
                    let temporary : RawReference = record {
                      generation = raw.generation;
                      byte_start = 0;
                      byte_end = length normalized;
                    } in
                    let frame : serde.decode_frame content (min parse parse_bytes)
                        ≡ ok (some (length content, value)) =
                      decoded
                      ∙ ap ok (
                          ok_or-some _ _ one
                          ∙ ap (λ n. some (n, value))
                              (eq_of_ensure consumed (length content) _ all)) in
                    bind-Bounds W serde raw max_bytes
                      (check_record serde normalized temporary max_bytes parse) _
                      λ _ _.
                        with_raw-Bounds W (IsAll serde json normalized) serde raw temporary
                          max_bytes (project_plain serde normalized temporary json max_bytes parse)
                          (λ shown w. (value, normalized, frame, ok_or-some _ _ printed, w))
                          (project_plain-Bounds temporary normalized json parse)

  project-Bounds :
      (content : List ℕ) (raw : RawReference) (codec : Codec) (parse : ℕ)
      → Bounds (IsWhole serde codec parse content) serde raw max_bytes (
          if is_messagepack codec
          then project_frame serde content raw max_bytes parse
          else project_plain serde content raw codec max_bytes parse)
  project-Bounds content raw text parse = project_plain-Bounds raw content text parse
  project-Bounds content raw json parse = project_plain-Bounds raw content json parse
  project-Bounds content raw messagepack parse = project_frame-Bounds content raw parse

-- When `project_record` returns a projection, for any codec and a budget that is a usize, its raw
-- reference is the one that it was given, its text has at most `max_bytes` bytes, it has at most
-- 128 omissions, each with a pointer of at most 1024 bytes, and without a diagnostic nothing was
-- left out: the text is that of all its bytes, or the serialization of the whole value that they
-- hold as JSON, unless the codec is text, and for MessagePack the frame is the whole record and
-- the same holds for the JSON text of its value.
pub project_record-IsBounded :
    (serde : Serde) (content : List ℕ) (raw : RawReference) (codec : Codec) (max_bytes parse : ℕ)
    {r : RecordProjection}
    → max_bytes ≤ usize_max
    → project_record serde content raw codec max_bytes parse ≡ ok r
    → IsBounded (IsWhole serde codec parse content) raw max_bytes r
unfolding project_record
project_record-IsBounded serde content raw codec max_bytes parse {r} word h =
    let W = IsWhole serde codec parse content in
    of-Bounds W serde raw max_bytes (project_record serde content raw codec max_bytes parse)
      (bind-Bounds W serde raw max_bytes (check_record serde content raw max_bytes parse) _
        λ _ _. project-Bounds serde max_bytes word content raw codec parse)
      h

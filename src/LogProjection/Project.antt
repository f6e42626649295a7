-- ===== src/LogProjection/Project.antt =====
-- `candidates` and `project_record` of src/log_projection.rs. A text is its UTF-8 bytes. `Serde` is what
-- they take from elsewhere: `from_utf8_lossy`, serde_json, and `decode_frame` of
-- src/msgpack_observation.rs, whose result is the length of the frame and its value.
use ferrous_framework.Base.{
  ℕ, zero, suc, ◌-◌, String, str_eq, Bool, true, false, ◌&&◌, ◌||◌, Option, none, some, List, [],
  ◌∷◌, ◌++◌, Result, ok, ok_or, ensure, ltb, leb, ◌==◌, if◌then◌else◌, length, take, get_elem?, min,
  ◌>>=◌ as ◌⟫◌,
}
use ferrous_framework.Json.{Value, null, bool, number, string, array, object, Fields, end, field}
use ferrous_framework.LogIndex.Defs.{
  Codec, text, json, is_messagepack, Error, invalid_projection_budgets, raw_mismatch,
  incomplete_frame, not_serializable, panicked,
}
use ferrous_framework.LogProjection.Defs.{
  RawReference, Omission, RecordProjection, parse_bytes, saturating_add,
}
use ferrous_framework.LogProjection.Pointer.{
  utf8_len, concat, escape, unescape, rsplit_once, str_lt,
}

-- `remove parent key` is `pointer_mut(parent)`, `as_object_mut` and `remove(&key)`: `none` where there is no
-- such object.
pub record Serde : Type 0 where
  pub lossy : List ℕ → List ℕ
  pub from_slice : List ℕ → Option Value
  pub to_json : Value → Option (List ℕ)
  pub remove : String → String → Value → Option Value
  pub decode_frame : List ℕ → ℕ → Result Error (Option (ℕ × Value))

abbrev pub kind : Value → String
kind null = "null"
kind (bool b) = "boolean"
kind (number n) = "number"
kind (string s) = "string"
kind (array xs) = "array"
kind (object fs) = "object"

-- the fields that are never left out
unfoldable pub is_envelope : String → String → Bool
is_envelope path key =
    str_eq path "" && (str_eq key "jsonrpc" || str_eq key "id" || str_eq key "method")
    || str_eq path "/error" && str_eq key "code"

-- is it an object with a field?
abbrev pub is_object : Value → Bool
is_object (object fs) = true
is_object _ = false

-- `text.is_char_boundary(i)`
unfoldable pub is_char_boundary : List ℕ → ℕ → Bool
is_char_boundary bytes zero = true
is_char_boundary bytes (suc i) = elim (get_elem? bytes (suc i)) [
  | none ↦ length bytes == suc i
  | some b ↦ ltb b 128 || leb 192 b
]

-- `while !text.is_char_boundary(end) { end -= 1; }`
unfoldable pub floor_boundary : List ℕ → ℕ → ℕ
floor_boundary bytes zero = 0
floor_boundary bytes (suc i) =
    let lower = floor_boundary bytes i in if is_char_boundary bytes (suc i) then suc i else lower

-- `text[..end]`
unfoldable pub preview_text : List ℕ → ℕ → List ℕ
preview_text bytes max_bytes = take (floor_boundary bytes (min (length bytes) max_bytes)) bytes

pub record Candidate : Type 0 where
  pub size : ℕ
  pub pointer : String
  pub original_type : String

-- `sort_by(|a, b| b.0.cmp(&a.0).then(a.1.cmp(&b.1)))`, by insertion
unfoldable pub comes_first : Candidate → Candidate → Bool
comes_first a b = ltb b.size a.size || a.size == b.size && str_lt a.pointer b.pointer

unfoldable pub insert_sorted : Candidate → List Candidate → List Candidate
insert_sorted c [] = c ∷ []
insert_sorted c (d ∷ ds) =
    let later = insert_sorted c ds in if comes_first d c then d ∷ later else c ∷ d ∷ ds

unfoldable pub sort_candidates : List Candidate → List Candidate
sort_candidates [] = []
sort_candidates (c ∷ cs) = insert_sorted c (sort_candidates cs)

module _ (serde : Serde) where
  -- `serde_json::to_vec(value)?`
  abbrev pub to_vec : Value → Result Error (List ℕ)
  to_vec v = ok_or (serde.to_json v) not_serializable

  abbrev leaf : String → Value → Result Error (List Candidate)
  leaf pointer item = to_vec item ⟫ λ bytes.
      ok (record { size = length bytes; pointer = pointer; original_type = kind item } ∷ [])

  abbrev joined :
      Bool
      → Result Error (List Candidate)
      → Result Error (List Candidate)
      → Result Error (List Candidate)
  joined skipped here rest = if skipped then rest else (here ⟫ λ xs. rest ⟫ λ ys. ok (xs ++ ys))

  abbrev pub pointer_of : String → String → String
  pointer_of path key = concat path (concat "/" (escape key))

  -- `candidates` on the fields of an object
  unfoldable pub candidates : String → Fields → Result Error (List Candidate)
  candidates path end = ok []
  candidates path (field key (object (field k v fs)) rest) =
      joined (is_envelope path key) (candidates (pointer_of path key) (field k v fs))
        (candidates path rest)
  candidates path (field key item rest) =
      joined (is_envelope path key) (leaf (pointer_of path key) item) (candidates path rest)

  -- the closure `preview`
  unfoldable pub preview : List ℕ → RawReference → ℕ → String → RecordProjection
  preview bytes raw max_bytes reason = record {
    text = preview_text bytes max_bytes;
    raw = raw;
    omissions = [];
    diagnostic = some reason;
  }

  -- the two `expect`s and the `remove`
  unfoldable pub remove_at : String → Value → Result Error Value
  remove_at pointer value = ok_or (rsplit_once pointer) panicked ⟫ λ (parent, escaped).
      ok_or (serde.remove parent (unescape escaped) value) panicked

  abbrev pub omission_of : Candidate → Omission
  omission_of c = record {
    pointer = c.pointer;
    original_type = c.original_type;
    serialized_bytes = c.size;
  }

  -- the loop over the candidates; `summary` is the preview that asks for a structured summary
  unfoldable pub omit :
      ℕ
      → RawReference
      → RecordProjection
      → List Candidate
      → List Omission
      → Value
      → Result Error RecordProjection
  omit max_bytes raw summary [] omissions value = ok summary
  omit max_bytes raw summary (c ∷ cs) omissions value =
      if leb 128 (length omissions) || ltb 1024 (utf8_len c.pointer)
      then ok summary
      else (remove_at c.pointer value ⟫ λ smaller. to_vec smaller ⟫ λ compact.
          let noted = omissions ++ omission_of c ∷ [] in
          if leb (length compact) max_bytes
          then ok (record {
            text = compact;
            raw = raw;
            omissions = noted;
            diagnostic = some "values_omitted";
          })
          else omit max_bytes raw summary cs noted smaller)

  unfoldable pub omit_fields :
      ℕ → RawReference → RecordProjection → Value → Result Error RecordProjection
  omit_fields max_bytes raw summary (object fs) =
      candidates "" fs ⟫ λ items. omit max_bytes raw summary (sort_candidates items) [] (object fs)
  omit_fields max_bytes raw summary _ = ok summary

  -- a record that is valid JSON
  unfoldable pub project_value : List ℕ → RawReference → ℕ → Value → Result Error RecordProjection
  project_value bytes raw max_bytes value = to_vec value ⟫ λ compact.
      if leb (length compact) max_bytes
      then ok (record { text = compact; raw = raw; omissions = []; diagnostic = none })
      else omit_fields max_bytes raw (preview bytes raw max_bytes "structured_summary_required")
          value

  unfoldable pub project_json : List ℕ → List ℕ → RawReference → ℕ → Result Error RecordProjection
  project_json content bytes raw max_bytes = elim (serde.from_slice content) [
    | none ↦ ok (preview bytes raw max_bytes "invalid_json")
    | some value ↦ project_value bytes raw max_bytes value
  ]

  abbrev pub is_text : Codec → Bool
  is_text text = true
  is_text _ = false

  -- `project_record` behind the branch of MessagePack
  unfoldable pub project_plain :
      List ℕ → RawReference → Codec → ℕ → ℕ → Result Error RecordProjection
  project_plain content raw codec max_bytes parse =
      let bytes = serde.lossy (take (min (length content) (saturating_add max_bytes 4)) content) in
      if leb (length content) max_bytes && leb (length bytes) max_bytes
      then ok (record { text = bytes; raw = raw; omissions = []; diagnostic = none })
      else if is_text codec
      then ok (preview bytes raw max_bytes "record_too_large")
      else if ltb parse (length content)
      then ok (preview bytes raw max_bytes "parse_budget_exceeded")
      else project_json content bytes raw max_bytes

  -- the two `ensure!`s; `checked_sub` fails where the end is before the start
  unfoldable pub check_record : List ℕ → RawReference → ℕ → ℕ → Result Error (Unit {0})
  check_record content raw max_bytes parse =
      ensure (leb 32 max_bytes && leb max_bytes parse) invalid_projection_budgets ⟫ λ _.
      ensure (leb raw.byte_start raw.byte_end && raw.byte_end - raw.byte_start == length content)
        raw_mismatch

  -- the recursive call, whose codec is JSON
  unfoldable pub project_normalized : Value → RawReference → ℕ → ℕ → Result Error RecordProjection
  project_normalized value raw max_bytes parse = to_vec value ⟫ λ normalized.
      let temporary : RawReference = record {
        generation = raw.generation;
        byte_start = 0;
        byte_end = length normalized;
      } in
      check_record normalized temporary max_bytes parse ⟫ λ _.
      project_plain normalized temporary json max_bytes parse ⟫ λ projected.
      ok (record projected { raw = raw })

  unfoldable pub project_frame : List ℕ → RawReference → ℕ → ℕ → Result Error RecordProjection
  project_frame content raw max_bytes parse =
      serde.decode_frame content (min parse parse_bytes) ⟫ λ found.
      ok_or found incomplete_frame ⟫ λ (consumed, value).
      ensure (consumed == length content) incomplete_frame ⟫ λ _.
      project_normalized value raw max_bytes parse

  unfoldable pub project_record :
      List ℕ → RawReference → Codec → ℕ → ℕ → Result Error RecordProjection
  project_record content raw codec max_bytes parse = check_record content raw max_bytes parse ⟫ λ _.
      if is_messagepack codec
      then project_frame content raw max_bytes parse
      else project_plain content raw codec max_bytes parse

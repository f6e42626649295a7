-- ===== src/Shutdown/Parse.antt =====
-- `parse_shutdown_result` of src/shutdown.rs, and the JSON that the derived serialization of its types writes. An i64 is
-- a number that is no float.
use ferrous_framework.Base.{
  ℕ, ◌^◌, ◌<◌, ◌≡◌, refl, String, Bool, false, Option, none, some, List, [], ◌∷◌, All, Result, ok,
  ok_or, ltb, lt→ltb, if◌then◌else◌, ◌>>=◌ as ◌⟫◌,
}
use ferrous_framework.Json.{
  Number, unsigned, negative, float, Value, null, bool, number, string, array, object, Items, nil,
  cons, end, field, as_str, as_object, as_array, as_bool, get,
}
use ferrous_framework.Shell.Names.{unwrap_or}
use ferrous_framework.ShellSpec.Entry.{and_then}

pub data ParseError : Type 0 where
  not_an_object no_stats no_text no_number no_array not_i64 not_text : ParseError

-- `FerrousShutdownStats` and `FerrousShutdownResult`, with their messages as texts
pub record ParsedStats : Type 0 where
  pub total : ℕ
  pub terminated : ℕ
  pub clean_exits : ℕ
  pub force_killed : ℕ
  pub errors : List String

pub record ParsedResult : Type 0 where
  pub is_ok : Bool
  pub kind : String
  pub target : String
  pub started_at_ms : ℕ
  pub ended_at_ms : ℕ
  pub elapsed_ms : ℕ
  pub root_pids : List Number
  pub stats : ParsedStats
  pub events : List String
  pub note : Option String

-- `Value::get`, `as_u64` and `as_i64`
abbrev pub member_of : String → Value → Option Value
member_of key value = and_then (as_object value) (get key)

abbrev pub as_u64 : Value → Option ℕ
as_u64 (number (unsigned n)) = some n
as_u64 _ = none

abbrev pub as_i64 : Value → Option Number
as_i64 (number (unsigned n)) = if ltb n (2 ^ 63) then some (unsigned n) else none
as_i64 (number (negative n)) = some (negative n)
as_i64 _ = none

unfoldable pub string_field : Value → String → Result ParseError String
unfolding get
string_field value key = ok_or (and_then (member_of key value) as_str) no_text

unfoldable pub u64_field : Value → String → Result ParseError ℕ
unfolding get
u64_field value key = ok_or (and_then (member_of key value) as_u64) no_number

unfoldable pub i64s_of : Items → Result ParseError (List Number)
i64s_of nil = ok []
i64s_of (cons x xs) = ok_or (as_i64 x) not_i64 ⟫ λ n. i64s_of xs ⟫ λ ns. ok (n ∷ ns)

unfoldable pub i64_vec_field : Value → String → Result ParseError (List Number)
unfolding get i64s_of
i64_vec_field value key = ok_or (and_then (member_of key value) as_array) no_array ⟫ i64s_of

unfoldable pub texts_in : Items → Result ParseError (List String)
texts_in nil = ok []
texts_in (cons x xs) = ok_or (as_str x) not_text ⟫ λ s. texts_in xs ⟫ λ rest. ok (s ∷ rest)

unfoldable pub string_vec_field : Value → String → Result ParseError (List String)
unfolding get texts_in
string_vec_field value key = ok_or (and_then (member_of key value) as_array) no_array ⟫ texts_in

unfoldable pub parse_stats : Value → Result ParseError ParsedStats
unfolding u64_field string_vec_field
parse_stats value = u64_field value "total" ⟫ λ total. u64_field value "terminated" ⟫ λ terminated.
    u64_field value "clean_exits" ⟫ λ clean_exits. u64_field value "force_killed" ⟫ λ force_killed.
    string_vec_field value "errors" ⟫ λ errors. ok (record {
      total = total;
      terminated = terminated;
      clean_exits = clean_exits;
      force_killed = force_killed;
      errors = errors;
    })

unfoldable pub parse_shutdown_result : Value → Result ParseError ParsedResult
unfolding parse_stats string_field u64_field i64_vec_field string_vec_field get
parse_shutdown_result value = ok_or (as_object value) not_an_object ⟫ λ fields.
    ok_or (get "stats" fields) no_stats ⟫ λ stats_value. string_field value "kind" ⟫ λ kind.
    string_field value "target" ⟫ λ target. u64_field value "started_at_ms" ⟫ λ started_at_ms.
    u64_field value "ended_at_ms" ⟫ λ ended_at_ms. u64_field value "elapsed_ms" ⟫ λ elapsed_ms.
    i64_vec_field value "root_pids" ⟫ λ root_pids. parse_stats stats_value ⟫ λ stats.
    string_vec_field value "events" ⟫ λ events. ok (record {
      is_ok = unwrap_or (and_then (get "ok" fields) as_bool) false;
      kind = kind;
      target = target;
      started_at_ms = started_at_ms;
      ended_at_ms = ended_at_ms;
      elapsed_ms = elapsed_ms;
      root_pids = root_pids;
      stats = stats;
      events = events;
      note = and_then (get "note" fields) as_str;
    })

-- the derived serialization
unfoldable pub texts_to_json : List String → Items
texts_to_json [] = nil
texts_to_json (s ∷ ss) = cons (string s) (texts_to_json ss)

unfoldable pub i64s_to_json : List Number → Items
i64s_to_json [] = nil
i64s_to_json (n ∷ ns) = cons (number n) (i64s_to_json ns)

abbrev pub note_to_json : Option String → Value
note_to_json none = null
note_to_json (some s) = string s

abbrev pub u64_to_json : ℕ → Value
u64_to_json n = number (unsigned n)

abbrev pub stats_to_json : ParsedStats → Value
stats_to_json s = object (
    field "clean_exits" (u64_to_json s.clean_exits) (
      field "errors" (array (texts_to_json s.errors)) (
        field "force_killed" (u64_to_json s.force_killed) (
          field "terminated" (u64_to_json s.terminated)
            (field "total" (u64_to_json s.total) end)))))

abbrev pub result_to_json : ParsedResult → Value
result_to_json r = object (
    field "elapsed_ms" (u64_to_json r.elapsed_ms) (
      field "ended_at_ms" (u64_to_json r.ended_at_ms) (
        field "events" (array (texts_to_json r.events)) (
          field "kind" (string r.kind) (
            field "note" (note_to_json r.note) (
              field "ok" (bool r.is_ok) (
                field "root_pids" (array (i64s_to_json r.root_pids)) (
                  field "started_at_ms" (u64_to_json r.started_at_ms) (
                    field "stats" (stats_to_json r.stats)
                      (field "target" (string r.target) end))))))))))

-- a number that an i64 is written as
abbrev pub IsI64 : Number → Type 0
IsI64 (unsigned n) = n < 2 ^ 63
IsI64 (negative n) = Unit
IsI64 (float bits) = ⊥

texts_back : (ss : List String) → texts_in (texts_to_json ss) ≡ ok ss
unfolding texts_in texts_to_json
texts_back [] = refl
texts_back (s ∷ ss) = rw (texts_back ss) refl

i64s_back : (ns : List Number) → All IsI64 ns → i64s_of (i64s_to_json ns) ≡ ok ns
unfolding i64s_of i64s_to_json
i64s_back [] h = refl
i64s_back (unsigned n ∷ ns) h = rw (lt→ltb n (2 ^ 63) h.0, i64s_back ns h.1) refl
i64s_back (negative n ∷ ns) h = rw (i64s_back ns h.1) refl
i64s_back (float n ∷ ns) h = absurd h.0

note_back : (note : Option String) → and_then (some (note_to_json note)) as_str ≡ note
note_back none = refl
note_back (some s) = refl

-- `parse_shutdown_result` reads back every shutdown result that was written as JSON, if the pids
-- of its roots are numbers of an i64.
pub parse-result_to_json :
    (r : ParsedResult) → All IsI64 r.root_pids → parse_shutdown_result (result_to_json r) ≡ ok r
unfolding parse_shutdown_result get parse_stats string_field u64_field i64_vec_field
    string_vec_field
parse-result_to_json r h =
    rw (texts_back r.events, texts_back r.stats.errors, i64s_back r.root_pids h, note_back r.note)
      refl

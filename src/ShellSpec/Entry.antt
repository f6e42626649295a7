-- ===== src/ShellSpec/Entry.antt =====
-- `render_shellspec_entry`, `render_shellspec_entries` and `parse_shellspec_entry` of src/shellspec.rs. `Libraries` has what
-- they take from other crates and the standard library: `shlex::split`, and how numbers and values are read and
-- printed. A floating-point number is its bit pattern.
use Prim.Native.Char.{Char, code}
use ferrous_framework.Base.{
  ℕ, zero, suc, ◌-◌, String, str_eq, Bool, true, ◌&&◌, Option, none, some, List, [], ◌∷◌, Result,
  ok, err, ok_or, ltb, leb, if◌then◌else◌, ◌>>=◌ as ◌⟫◌,
}
use ferrous_framework.Json.{
  Number, unsigned, Value, number, string, array, Items, nil, cons, Fields, end, field, as_str,
  as_object, as_array, as_bool, get,
}
use ferrous_framework.Shell.Names.{trim, unwrap_or}
use ferrous_framework.Manager.Spawn.{insert_key}
use ferrous_framework.LogCodecs.Defs.{validate_log_codecs}
use ferrous_framework.LogCodecs.Defs as LogCodecs
use ferrous_framework.ShellSpec.Template.{
  Error, no_shells, not_found, no_command, not_a_command, bad_quoting, empty_command, not_strings,
  not_an_object, no_type, bad_log_codecs, RenderInput, Render, render_value,
}

pub record Libraries : Type 0 where
  pub split : String → Option (List String)
  pub print_value : Value → String
  pub as_f64 : Number → Option ℕ
  pub parse_f64 : String → Option ℕ
  pub parse_u16 : String → Option ℕ

-- 30.0 as an f64
abbrev pub thirty : ℕ
thirty = 4629137466983448576

-- `RenderedReadinessProbe`
pub record ReadinessProbe : Type 0 where
  pub probe_type : String
  pub timeout_seconds : ℕ
  pub pattern : Option String
  pub host : String
  pub port : Option ℕ
  pub url : Option String
  pub status_codes : List ℕ

-- `RenderedShellSpec`
pub record ShellSpec : Type 0 where
  pub id : String
  pub backend : String
  pub command : List String
  pub cwd : Option String
  pub env : List (String × String)
  pub subgroups : List String
  pub ui : Fields
  pub debug : Fields
  pub log_codecs : Fields
  pub pty_mode : String
  pub autostart : Bool
  pub readiness : Option ReadinessProbe

-- `and_then`
abbrev pub and_then {ℓ κ} : {A : Type ℓ} {B : Type κ} → Option A → (A → Option B) → Option B
and_then none f = none
and_then (some a) f = f a

abbrev nth_or : Char → ℕ → String → Char
nth_or c n String.[] = c
nth_or c zero (String.◌∷◌ d s) = d
nth_or c (suc n) (String.◌∷◌ d s) = nth_or c n s

-- `to_ascii_lowercase`
unfoldable pub to_ascii_lowercase : String → String
to_ascii_lowercase String.[] = ""
to_ascii_lowercase (String.◌∷◌ c s) =
    let rest = to_ascii_lowercase s in
    if leb 65 (code c) && leb (code c) 90
    then String.◌∷◌ (nth_or c (code c - 65) "abcdefghijklmnopqrstuvwxyz") rest
    else String.◌∷◌ c rest

-- the items of a command, which are texts
unfoldable pub strings_of : Items → Result Error (List String)
strings_of nil = ok []
strings_of (cons x xs) = ok_or (as_str x) not_strings ⟫ λ s. strings_of xs ⟫ λ rest. ok (s ∷ rest)

abbrev pub not_empty : List String → Result Error (List String)
not_empty [] = err empty_command
not_empty (x ∷ xs) = ok (x ∷ xs)

-- `parse_string_list`: items that are no texts are left out
unfoldable pub texts_of : Items → List String
texts_of nil = []
texts_of (cons (string s) xs) = s ∷ texts_of xs
texts_of (cons _ xs) = texts_of xs

abbrev pub parse_string_list : Option Items → List String
parse_string_list none = []
parse_string_list (some xs) = texts_of xs

-- `parse_object_map`
abbrev pub parse_object_map : Option Value → Fields
parse_object_map value = unwrap_or (and_then value as_object) end

-- the `filter` of `cwd`
abbrev pub not_blank : Option String → Option String
not_blank none = none
not_blank (some s) = if str_eq s "" then none else some s

-- `u16::try_from`
abbrev pub u16_of : Number → Option ℕ
u16_of (unsigned n) = if ltb n 65536 then some n else none
u16_of _ = none

module _ (lib : Libraries) where
  -- `parse_command_value`
  unfoldable pub parse_command_value : Option Value → Result Error (List String)
  unfolding strings_of
  parse_command_value none = err no_command
  parse_command_value (some (array xs)) = strings_of xs ⟫ not_empty
  parse_command_value (some (string s)) = ok_or (lib.split s) bad_quoting ⟫ not_empty
  parse_command_value (some _) = err not_a_command

  abbrev pub text_or_printed : Value → String
  text_or_printed v = unwrap_or (as_str v) (lib.print_value v)

  -- `parse_string_map`
  unfoldable pub string_map_of : Fields → List (String × String)
  string_map_of end = []
  string_map_of (field k v fs) = (k, text_or_printed v) ∷ string_map_of fs

  abbrev pub parse_string_map : Option Value → List (String × String)
  parse_string_map value = string_map_of (parse_object_map value)

  -- `parse_f64`
  abbrev pub parse_f64_value : Option Value → Option ℕ
  parse_f64_value (some (number n)) = lib.as_f64 n
  parse_f64_value (some (string raw)) = lib.parse_f64 raw
  parse_f64_value _ = none

  -- `parse_u16`
  unfoldable pub parse_u16_value : Option Value → Option ℕ
  unfolding trim
  parse_u16_value (some (number n)) = u16_of n
  parse_u16_value (some (string raw)) = lib.parse_u16 (trim raw)
  parse_u16_value _ = none

  unfoldable pub u16s_of : Items → List ℕ
  unfolding parse_u16_value
  u16s_of nil = []
  u16s_of (cons x xs) =
      let rest = u16s_of xs in elim (parse_u16_value (some x)) [ none ↦ rest | some n ↦ n ∷ rest ]

  abbrev pub status_codes_of : Option Items → List ℕ
  status_codes_of none = 200 ∷ []
  status_codes_of (some xs) = u16s_of xs

  abbrev pub probe_of : String → Fields → ReadinessProbe
  probe_of probe_type fs = record {
    probe_type = probe_type;
    timeout_seconds = unwrap_or (parse_f64_value (get "timeout" fs)) thirty;
    pattern = and_then (get "pattern" fs) as_str;
    host = unwrap_or (and_then (get "host" fs) as_str) "127.0.0.1";
    port = parse_u16_value (get "port" fs);
    url = and_then (get "url" fs) as_str;
    status_codes = status_codes_of (and_then (get "status_codes" fs) as_array);
  }

  abbrev pub typed_probe : Fields → Result Error (Option ReadinessProbe)
  typed_probe fs =
      let probe_type = unwrap_or (and_then (get "type" fs) as_str) "" in
      if str_eq probe_type "" then err no_type else ok (some (probe_of probe_type fs))

  -- `parse_readiness_value`
  unfoldable pub parse_readiness_value : Option Value → Result Error (Option ReadinessProbe)
  unfolding parse_u16_value u16s_of get
  parse_readiness_value none = ok none
  parse_readiness_value (some value) = ok_or (as_object value) not_an_object ⟫ typed_probe

  abbrev pub codecs_or_bad : Result LogCodecs.Error Fields → Result Error Fields
  codecs_or_bad (ok fs) = ok fs
  codecs_or_bad (err e) = err bad_log_codecs

  abbrev pub spec_of : String → Fields → List String → Option ReadinessProbe → Fields → ShellSpec
  spec_of entry shell command readiness log_codecs = record {
    id = unwrap_or (and_then (get "id" shell) as_str) entry;
    backend = to_ascii_lowercase (unwrap_or (and_then (get "backend" shell) as_str) "proc");
    command = command;
    cwd = not_blank (and_then (get "cwd" shell) as_str);
    env = parse_string_map (get "env" shell);
    subgroups = parse_string_list (and_then (get "subgroups" shell) as_array);
    ui = parse_object_map (get "ui" shell);
    debug = parse_object_map (get "debug" shell);
    log_codecs = log_codecs;
    pty_mode = unwrap_or (and_then (get "pty_mode" shell) as_str) "raw";
    autostart = unwrap_or (and_then (get "autostart" shell) as_bool) true;
    readiness = readiness;
  }

  -- `document.get("shells").and_then(Value::as_object)`
  abbrev pub shells_in : Value → Result Error Fields
  shells_in document =
      ok_or (and_then (and_then (as_object document) (get "shells")) as_object) no_shells

  abbrev pub parse_shell : String → Fields → Result Error ShellSpec
  parse_shell entry shell = parse_command_value (get "command" shell) ⟫ λ command.
      parse_readiness_value (get "readiness" shell) ⟫ λ readiness.
      codecs_or_bad (validate_log_codecs (get "log_codecs" shell)) ⟫ λ log_codecs.
      ok (spec_of entry shell command readiness log_codecs)

  unfoldable pub parse_shellspec_entry : Value → String → Result Error ShellSpec
  unfolding parse_command_value parse_readiness_value validate_log_codecs string_map_of texts_of
      to_ascii_lowercase get
  parse_shellspec_entry document entry = shells_in document ⟫ λ shells.
      ok_or (and_then (get entry shells) as_object) not_found ⟫ parse_shell entry

  -- the keys, sorted
  unfoldable pub sorted_keys : Fields → List String
  unfolding insert_key
  sorted_keys end = []
  sorted_keys (field k v fs) = insert_key k (sorted_keys fs)

  unfoldable pub parse_entries : Value → List String → Result Error (List ShellSpec)
  unfolding parse_shellspec_entry
  parse_entries document [] = ok []
  parse_entries document (entry ∷ entries) = parse_shellspec_entry document entry ⟫ λ spec.
      parse_entries document entries ⟫ λ specs. ok (spec ∷ specs)

  module _ (r : Render) (input : RenderInput) where
    -- the state of the rendering is dropped
    unfoldable pub render_shellspec_value : Value → Result Error Value
    unfolding render_value
    render_shellspec_value value = (render_value r input value none).0

    unfoldable pub render_shellspec_entry : Value → String → Result Error ShellSpec
    unfolding render_shellspec_value parse_shellspec_entry
    render_shellspec_entry document entry =
        render_shellspec_value document ⟫ λ rendered. parse_shellspec_entry rendered entry

    unfoldable pub render_shellspec_entries : Value → Result Error (List ShellSpec)
    unfolding render_shellspec_value parse_entries sorted_keys
    render_shellspec_entries document = render_shellspec_value document ⟫ λ rendered.
        shells_in rendered ⟫ λ shells. parse_entries rendered (sorted_keys shells)

-- ===== src/ShellSpec/Parsed.antt =====
-- What a specification that was parsed from a document of src/shellspec.rs has.
use ferrous_framework.Base.{
  ℕ, ◌<◌, ◌≡◌, ◌≢◌, refl, sym, String, str_eq, true, Option, none, some, List, [], ◌∷◌, Result, ok,
  err, ok_or, All, arith, inl, inr, Bool-cases, Option-cases, >>=_elim, ne_of_false,
}
use ferrous_framework.Json.{
  unsigned, negative, float, Value, null, bool, number, string, array, object, Items, nil, cons,
  Fields, as_str, as_object, as_array, get,
}
use ferrous_framework.LogIndex.Defs.{Codec}
use ferrous_framework.LogCodecs.Defs.{is_stream, validate_log_codecs, stream_codec}
use ferrous_framework.LogCodecs.Defs as LogCodecs
use ferrous_framework.LogCodecs.Checked.{stream_codec-validate}
use ferrous_framework.Shell.Names.{trim, unwrap_or}
use ferrous_framework.ShellSpec.Template.{Error, not_found, not_an_object, bad_quoting}
use ferrous_framework.ShellSpec.Entry.{
  Libraries, ReadinessProbe, ShellSpec, and_then, not_empty, strings_of, parse_command_value,
  parse_u16_value, u16s_of, status_codes_of, probe_of, typed_probe, parse_readiness_value,
  codecs_or_bad, spec_of, shells_in, parse_shell, parse_shellspec_entry,
}

ok-injective : (a b : ShellSpec) → ◌≡◌ {A = Result Error ShellSpec} (ok a) (ok b) → a ≡ b
ok-injective a b h = ground arith

-- a port is a u16, and the type is not empty
abbrev pub IsProbe : ReadinessProbe → Type 0
IsProbe p =
    (p.probe_type ≢ "")
    × ((port : ℕ) → p.port ≡ some port → port < 65536)
    × All (λ code. code < 65536) p.status_codes

-- there is a command, each stream has a codec, and a probe is well formed
pub record IsSpec (spec : ShellSpec) : Type 0 where
  pub has_command : spec.command ≢ []
  pub has_codecs :
      (stream : String)
      → is_stream stream ≡ true
      → (c : Codec) × (stream_codec spec.log_codecs stream ≡ ok c)
  pub has_probe : (p : ReadinessProbe) → spec.readiness ≡ some p → IsProbe p

not_empty-ok : (xs ys : List String) → not_empty xs ≡ ok ys → ys ≢ []
not_empty-ok [] ys h = absurd (ground arith)
not_empty-ok (x ∷ xs) ys h = λ e. ground arith

module _ (lib : Libraries) where
  parse_command-ok :
      (v : Option Value) (xs : List String) → parse_command_value lib v ≡ ok xs → xs ≢ []
  unfolding parse_command_value
  parse_command-ok none xs h = absurd (ground arith)
  parse_command-ok (some (array items)) xs h =
      >>=_elim (xs ≢ []) (strings_of items) not_empty h (λ ys _ g. not_empty-ok ys xs g)
  parse_command-ok (some (string s)) xs h =
      >>=_elim (xs ≢ []) (ok_or (lib.split s) bad_quoting) not_empty h
        (λ ys _ g. not_empty-ok ys xs g)
  parse_command-ok (some null) xs h = absurd (ground arith)
  parse_command-ok (some (bool b)) xs h = absurd (ground arith)
  parse_command-ok (some (number n)) xs h = absurd (ground arith)
  parse_command-ok (some (object fs)) xs h = absurd (ground arith)

  module _ (bounded : (s : String) (n : ℕ) → lib.parse_u16 s ≡ some n → n < 65536) where
    u16-bound : (v : Option Value) (n : ℕ) → parse_u16_value lib v ≡ some n → n < 65536
    unfolding parse_u16_value
    u16-bound none n h = absurd (ground arith)
    u16-bound (some (number (unsigned m))) n h = ground arith
    u16-bound (some (number (negative m))) n h = absurd (ground arith)
    u16-bound (some (number (float m))) n h = absurd (ground arith)
    u16-bound (some (string raw)) n h = bounded (trim raw) n h
    u16-bound (some null) n h = absurd (ground arith)
    u16-bound (some (bool b)) n h = absurd (ground arith)
    u16-bound (some (array xs)) n h = absurd (ground arith)
    u16-bound (some (object fs)) n h = absurd (ground arith)

    u16s-bound : (xs : Items) → All (λ code. code < 65536) (u16s_of lib xs)
    unfolding u16s_of
    u16s-bound nil = tt
    u16s-bound (cons x xs) = elim (Option-cases (parse_u16_value lib (some x))) [
      | inl e ↦ rw (e, u16s_of) (u16s-bound xs)
      | inr (n, e) ↦ rw (e, u16s_of) (u16-bound (some x) n e, u16s-bound xs)
    ]

    codes-bound : (xs : Option Items) → All (λ code. code < 65536) (status_codes_of lib xs)
    codes-bound none = (omega arith, tt)
    codes-bound (some xs) = u16s-bound xs

    typed_checked :
        (fs : Fields) (o : Option ReadinessProbe) (p : ReadinessProbe)
        → typed_probe lib fs ≡ ok o
        → o ≡ some p
        → IsProbe p
    typed_checked fs o p h e =
        let probe_type = unwrap_or (and_then (get "type" fs) as_str) "" in
        elim (Bool-cases (str_eq probe_type "")) [
          | inl f ↦ absurd (ground arith)
          | inr f ↦
              let made : probe_of lib probe_type fs ≡ p = ground arith in
              rw (sym made) (
                ne_of_false probe_type "" f,
                u16-bound (get "port" fs),
                codes-bound (and_then (get "status_codes" fs) as_array),
              )
        ]

    readiness_checked :
        (v : Option Value) (o : Option ReadinessProbe) (p : ReadinessProbe)
        → parse_readiness_value lib v ≡ ok o
        → o ≡ some p
        → IsProbe p
    unfolding parse_readiness_value
    readiness_checked none o p h e = absurd (ground arith)
    readiness_checked (some v) o p h e =
        >>=_elim (IsProbe p) (ok_or (as_object v) not_an_object) (typed_probe lib) h
          λ fs _ g. typed_checked fs o p g e

    codecs-ok :
        (v : Option Value) (codecs : Fields) (stream : String)
        → codecs_or_bad lib (validate_log_codecs v) ≡ ok codecs
        → is_stream stream ≡ true
        → (c : Codec) × (stream_codec codecs stream ≡ ok c)
    codecs-ok v codecs stream h known = go (validate_log_codecs v) refl h
      where
        go :
            (o : Result LogCodecs.Error Fields)
            → validate_log_codecs v ≡ o
            → codecs_or_bad lib o ≡ ok codecs
            → (c : Codec) × (stream_codec codecs stream ≡ ok c)
        go (ok fs) e g =
            let same : fs ≡ codecs = ground arith in
            let (c, found, says) = stream_codec-validate v fs stream e known in
            (c, rw (sym same) found)
        go (err x) e g = absurd (ground arith)

    parse_shell-IsSpec :
        (entry : String) (shell : Fields) (spec : ShellSpec)
        → parse_shell lib entry shell ≡ ok spec
        → IsSpec spec
    parse_shell-IsSpec entry shell spec h =
        >>=_elim (IsSpec spec) (parse_command_value lib (get "command" shell)) _ h λ command c h₁.
          >>=_elim (IsSpec spec) (parse_readiness_value lib (get "readiness" shell)) _ h₁
            λ readiness p h₂.
              >>=_elim (IsSpec spec)
                (codecs_or_bad lib (validate_log_codecs (get "log_codecs" shell))) _ h₂
                λ log_codecs l h₃.
                  let made : spec_of lib entry shell command readiness log_codecs ≡ spec =
                    ok-injective _ spec h₃ in
                  rw (sym made) (record {
                    has_command = parse_command-ok (get "command" shell) command c;
                    has_codecs = λ stream known.
                        codecs-ok (get "log_codecs" shell) log_codecs stream l known;
                    has_probe = λ q e. readiness_checked (get "readiness" shell) readiness q p e;
                  })

    -- x
    pub parse_shellspec_entry-IsSpec :
        (document : Value) (entry : String) (spec : ShellSpec)
        → parse_shellspec_entry lib document entry ≡ ok spec
        → IsSpec spec
    unfolding parse_shellspec_entry
    parse_shellspec_entry-IsSpec document entry spec h =
        >>=_elim (IsSpec spec) (shells_in lib document) _ h λ shells _ h₁.
          >>=_elim (IsSpec spec) (ok_or (and_then (get entry shells) as_object) not_found)
            (parse_shell lib entry) h₁ λ shell _ h₂. parse_shell-IsSpec entry shell spec h₂

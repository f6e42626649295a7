-- ===== src/ShellSpec/Sources.antt =====
-- Where the fields of a specification come from: the shell of a document that `parse_shellspec_entry` of
-- src/shellspec.rs reads.
use mathlib.Core.Path.{subst}
use mathlib.Core.Option.{some-injective}
use ferrous_framework.Base.{
  eq_iff, ◌≡◌, ◌≢◌, refl, sym, String, str_eq, Bool, true, Option, none, some, List, [], ◌∷◌,
  Result, ok, ok_or, arith, inl, inr, Bool-cases, >>=_elim, ne_of_false,
}
use ferrous_framework.Json.{
  Value, null, bool, number, string, array, object, Items, nil, cons, Fields, end, field, as_str,
  as_object, as_bool, get,
}
use ferrous_framework.LogCodecs.Defs.{validate_log_codecs}
use ferrous_framework.Shell.Names.{unwrap_or}
use ferrous_framework.ShellSpec.Template.{Error, bad_quoting, not_found}
use ferrous_framework.ShellSpec.Entry.{
  Libraries, ShellSpec, and_then, to_ascii_lowercase, not_empty, not_blank, strings_of,
  string_map_of, parse_object_map, parse_command_value, parse_readiness_value, codecs_or_bad,
  spec_of, parse_shell, shells_in, parse_shellspec_entry,
}

-- the text at a key, or the default where there is no text
pub data Holds (shell : Fields) (key default : String) : String → Type 0 where
  held : (s : String) → get key shell ≡ some (string s) → Holds shell key default s
  not_held : ((s : String) → get key shell ≢ some (string s)) → Holds shell key default default

-- the texts of a list, all of whose items are texts
pub data AreTexts : Items → List String → Type 0 where
  no_texts : AreTexts nil []
  a_text :
      (s : String) {xs : Items} {ss : List String}
      → AreTexts xs ss
      → AreTexts (cons (string s) xs) (s ∷ ss)

-- the command is a list of texts, or the words of one text
pub data IsCommand (lib : Libraries) (shell : Fields) (command : List String) : Type 0 where
  listed :
      (xs : Items)
      → get "command" shell ≡ some (array xs)
      → AreTexts xs command
      → IsCommand lib shell command
  one_line :
      (line : String)
      → get "command" shell ≡ some (string line)
      → lib.split line ≡ some command
      → IsCommand lib shell command

-- the variables of an object: a text as it is, any other value as it prints
pub data AreVars (lib : Libraries) : Fields → List (String × String) → Type 0 where
  no_vars : AreVars lib end []
  text_var :
      (k s : String) {fs : Fields} {env : List (String × String)}
      → AreVars lib fs env
      → AreVars lib (field k (string s) fs) ((k, s) ∷ env)
  printed_var :
      (k : String) (v : Value) {fs : Fields} {env : List (String × String)}
      → ((s : String) → v ≢ string s)
      → AreVars lib fs env
      → AreVars lib (field k v fs) ((k, lib.print_value v) ∷ env)

-- the object at a key, or the empty one
pub data IsObject (shell : Fields) (key : String) : Fields → Type 0 where
  an_object : (fs : Fields) → get key shell ≡ some (object fs) → IsObject shell key fs
  no_object : ((fs : Fields) → get key shell ≢ some (object fs)) → IsObject shell key end

-- the switch at a key, which is on where there is none
pub data IsSwitch (shell : Fields) (key : String) : Bool → Type 0 where
  switched : (b : Bool) → get key shell ≡ some (bool b) → IsSwitch shell key b
  unset : ((b : Bool) → get key shell ≢ some (bool b)) → IsSwitch shell key true

-- `spec` is the specification of the shell `shell` that stands at `entry`
pub record IsSpecOf (lib : Libraries) (entry : String) (shell : Fields) (spec : ShellSpec)
    : Type 0 where
  pub id : Holds shell "id" entry spec.id
  pub backend :
      (b : String) × Holds shell "backend" "proc" b × (spec.backend ≡ to_ascii_lowercase b)
  pub command : IsCommand lib shell spec.command
  pub cwd : Holds shell "cwd" "" (unwrap_or spec.cwd "")
  pub cwd_is_path : spec.cwd ≢ some ""
  pub env : (fs : Fields) × IsObject shell "env" fs × AreVars lib fs spec.env
  pub ui : IsObject shell "ui" spec.ui
  pub debug : IsObject shell "debug" spec.debug
  pub pty_mode : Holds shell "pty_mode" "raw" spec.pty_mode
  pub autostart : IsSwitch shell "autostart" spec.autostart

text-Holds :
    (shell : Fields) (key default : String)
    → Holds shell key default (unwrap_or (and_then (get key shell) as_str) default)
text-Holds shell key default = go (get key shell) refl
  where
    go :
        (o : Option Value)
        → get key shell ≡ o
        → Holds shell key default (unwrap_or (and_then o as_str) default)
    go none e = not_held (λ s q. ground arith)
    go (some (string s)) e = held s e
    go (some null) e = not_held (λ s q. ground arith)
    go (some (bool b)) e = not_held (λ s q. ground arith)
    go (some (number n)) e = not_held (λ s q. ground arith)
    go (some (array xs)) e = not_held (λ s q. ground arith)
    go (some (object fs)) e = not_held (λ s q. ground arith)

parse_object_map-IsObject :
    (shell : Fields) (key : String) → IsObject shell key (parse_object_map (get key shell))
parse_object_map-IsObject shell key = go (get key shell) refl
  where
    go : (o : Option Value) → get key shell ≡ o → IsObject shell key (parse_object_map o)
    go none e = no_object (λ s q. ground arith)
    go (some (string s)) e = no_object (λ s q. ground arith)
    go (some null) e = no_object (λ s q. ground arith)
    go (some (bool b)) e = no_object (λ s q. ground arith)
    go (some (number n)) e = no_object (λ s q. ground arith)
    go (some (array xs)) e = no_object (λ s q. ground arith)
    go (some (object fs)) e = an_object fs e

as_bool-IsSwitch :
    (shell : Fields) (key : String)
    → IsSwitch shell key (unwrap_or (and_then (get key shell) as_bool) true)
as_bool-IsSwitch shell key = go (get key shell) refl
  where
    go :
        (o : Option Value)
        → get key shell ≡ o
        → IsSwitch shell key (unwrap_or (and_then o as_bool) true)
    go none e = unset (λ s q. ground arith)
    go (some (string s)) e = unset (λ s q. ground arith)
    go (some null) e = unset (λ s q. ground arith)
    go (some (bool b)) e = switched b e
    go (some (number n)) e = unset (λ s q. ground arith)
    go (some (array xs)) e = unset (λ s q. ground arith)
    go (some (object fs)) e = unset (λ s q. ground arith)

-- a blank path is left out, and reads as blank
blank_back :
    (o : Option String) → (unwrap_or (not_blank o) "" ≡ unwrap_or o "") × (not_blank o ≢ some "")
blank_back none = (refl, λ e. ground arith)
blank_back (some s) = elim (Bool-cases (str_eq s "")) [
  | inl e ↦ rw e (sym ((eq_iff s "").0 e), λ q. ground arith)
  | inr e ↦ rw e (refl, λ q. ne_of_false s "" e (some-injective s "" q))
]

ok_list : {a b : List String} → ◌≡◌ {A = Result Error (List String)} (ok a) (ok b) → a ≡ b
ok_list h = ground arith

not_empty-eq : (xs : List String) {ys : List String} → not_empty xs ≡ ok ys → xs ≡ ys
not_empty-eq [] h = absurd (ground arith)
not_empty-eq (x ∷ xs) h = ok_list h

strings-AreTexts : (xs : Items) {ss : List String} → strings_of xs ≡ ok ss → AreTexts xs ss
unfolding strings_of
strings-AreTexts nil h = subst (AreTexts nil) (ok_list h) no_texts
strings-AreTexts (cons (string s) xs) {ss} h =
    >>=_elim (AreTexts (cons (string s) xs) ss) (strings_of xs) _ h λ rest more h₁.
      subst (AreTexts (cons (string s) xs)) (ok_list h₁) (a_text s (strings-AreTexts xs more))
strings-AreTexts (cons null xs) h = absurd (ground arith)
strings-AreTexts (cons (bool b) xs) h = absurd (ground arith)
strings-AreTexts (cons (number n) xs) h = absurd (ground arith)
strings-AreTexts (cons (array ys) xs) h = absurd (ground arith)
strings-AreTexts (cons (object fs) xs) h = absurd (ground arith)

ok-injective : (a b : ShellSpec) → ◌≡◌ {A = Result Error ShellSpec} (ok a) (ok b) → a ≡ b
ok-injective a b h = ground arith

module _ (lib : Libraries) where
  parse_command_value-IsCommand :
      (shell : Fields) {command : List String}
      → parse_command_value lib (get "command" shell) ≡ ok command
      → IsCommand lib shell command
  unfolding parse_command_value
  parse_command_value-IsCommand shell {command} h = go (get "command" shell) refl h
    where
      go :
          (o : Option Value)
          → get "command" shell ≡ o
          → parse_command_value lib o ≡ ok command
          → IsCommand lib shell command
      go none e q = absurd (ground arith)
      go (some (array xs)) e q =
          >>=_elim (IsCommand lib shell command) (strings_of xs) not_empty q λ ys texts g.
            listed xs e (subst (AreTexts xs) (not_empty-eq ys g) (strings-AreTexts xs texts))
      go (some (string s)) e q =
          >>=_elim (IsCommand lib shell command) (ok_or (lib.split s) bad_quoting) not_empty q
            λ ys words g. one_line s e (ground (arith, not_empty-eq ys g))
      go (some null) e q = absurd (ground arith)
      go (some (bool b)) e q = absurd (ground arith)
      go (some (number n)) e q = absurd (ground arith)
      go (some (object fs)) e q = absurd (ground arith)

  vars-AreVars : (fs : Fields) → AreVars lib fs (string_map_of lib fs)
  unfolding string_map_of
  vars-AreVars end = no_vars
  vars-AreVars (field k (string s) fs) = text_var k s (vars-AreVars fs)
  vars-AreVars (field k null fs) = printed_var k null (λ s q. ground arith) (vars-AreVars fs)
  vars-AreVars (field k (bool b) fs) =
      printed_var k (bool b) (λ s q. ground arith) (vars-AreVars fs)
  vars-AreVars (field k (number n) fs) =
      printed_var k (number n) (λ s q. ground arith) (vars-AreVars fs)
  vars-AreVars (field k (array xs) fs) =
      printed_var k (array xs) (λ s q. ground arith) (vars-AreVars fs)
  vars-AreVars (field k (object os) fs) =
      printed_var k (object os) (λ s q. ground arith) (vars-AreVars fs)

  cwd-Holds :
      (shell : Fields)
      → Holds shell "cwd" "" (unwrap_or (not_blank (and_then (get "cwd" shell) as_str)) "")
  cwd-Holds shell =
      let o = and_then (get "cwd" shell) as_str in
      subst (Holds shell "cwd" "") (sym (blank_back o).0) (text-Holds shell "cwd" "")

  pub parse_shell-IsSpecOf :
      (entry : String) (shell : Fields) (spec : ShellSpec)
      → parse_shell lib entry shell ≡ ok spec
      → IsSpecOf lib entry shell spec
  parse_shell-IsSpecOf entry shell spec h =
      let P = IsSpecOf lib entry shell spec in
      >>=_elim P (parse_command_value lib (get "command" shell)) _ h λ command c h₁.
        >>=_elim P (parse_readiness_value lib (get "readiness" shell)) _ h₁ λ readiness p h₂.
          >>=_elim P (codecs_or_bad lib (validate_log_codecs (get "log_codecs" shell))) _ h₂
            λ log_codecs l h₃.
              let made : spec_of lib entry shell command readiness log_codecs ≡ spec =
                ok-injective _ spec h₃ in
              subst (IsSpecOf lib entry shell) made (record {
                id = text-Holds shell "id" entry;
                backend = (_, text-Holds shell "backend" "proc", refl);
                command = parse_command_value-IsCommand shell c;
                cwd = cwd-Holds shell;
                cwd_is_path = (blank_back (and_then (get "cwd" shell) as_str)).1;
                env = (_, parse_object_map-IsObject shell "env", vars-AreVars _);
                ui = parse_object_map-IsObject shell "ui";
                debug = parse_object_map-IsObject shell "debug";
                pty_mode = text-Holds shell "pty_mode" "raw";
                autostart = as_bool-IsSwitch shell "autostart";
              })

  at_entry :
      (entry : String) (shells shell : Fields)
      → ok_or (and_then (get entry shells) as_object) not_found ≡ ok shell
      → get entry shells ≡ some (object shell)
  at_entry entry shells shell h = go (get entry shells) h
    where
      go :
          (o : Option Value)
          → ok_or (and_then o as_object) not_found ≡ ok shell
          → o ≡ some (object shell)
      go none q = absurd (ground arith)
      go (some (object fs)) q = ground arith
      go (some (string s)) q = absurd (ground arith)
      go (some null) q = absurd (ground arith)
      go (some (bool b)) q = absurd (ground arith)
      go (some (number n)) q = absurd (ground arith)
      go (some (array xs)) q = absurd (ground arith)

  -- What an entry that is parsed comes from.
  pub parse_shellspec_entry-IsSpecOf :
      (document : Value) (entry : String) (shells : Fields) (spec : ShellSpec)
      → shells_in lib document ≡ ok shells
      → parse_shellspec_entry lib document entry ≡ ok spec
      → (shell : Fields) × (get entry shells ≡ some (object shell)) × IsSpecOf lib entry shell spec
  unfolding parse_shellspec_entry
  parse_shellspec_entry-IsSpecOf document entry shells spec has h =
      let P =
        (shell : Fields) × (get entry shells ≡ some (object shell))
        × IsSpecOf lib entry shell spec in
      >>=_elim P (ok_or (and_then (get entry shells) as_object) not_found) (parse_shell lib entry)
        (rw has at h)
        λ shell there h₂.
          (shell, at_entry entry shells shell there, parse_shell-IsSpecOf entry shell spec h₂)

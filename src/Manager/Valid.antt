-- ===== src/Manager/Valid.antt =====
-- The entries that the manager of src/native_runtime.rs may hold, and how an entry may change.
use ferrous_framework.Base.{
  ◌≡◌, refl, sym, ap, ◌∙◌, String, str_eq, eq_iff, true, false, none, some, List, arith, inl, inr,
  ◌⊎◌, Bool-cases,
}
use mathlib.Core.Option.{some-injective}
use ferrous_framework.Base.Assoc.{lookup, put, lookup-put, put_cases}
use ferrous_framework.Shell.Record.{is_running}
use ferrous_framework.Manager.Defs.{Entry, Store, Manager, record_path_for}
use ferrous_framework.Manager.Spawn.{is_some}

-- The entry under `shell_id`: it is a shell of this manager with that id, its record is in the directory of
-- the id, and what its capabilities promise is there.
pub record IsEntry (store : Store) (shell_id : String) (e : Entry) : Type 0 where
  pub named : e.shell.id ≡ shell_id
  pub stored : e.record_path ≡ record_path_for store shell_id
  pub recorded : e.shell.record_path ≡ record_path_for store shell_id
  pub writes : e.shell.capabilities.stdin_write ≡ true → is_some e.input ≡ true
  pub ends : e.shell.capabilities.stdin_eof ≡ true → is_some e.input ≡ true
  pub resizes : e.shell.capabilities.resize ≡ true → is_some e.resize ≡ true
  pub own : e.shell.adopted ≡ false

abbrev pub IsValid : Store → List (String × Entry) → Type 0
IsValid store entries =
    (shell_id : String) (e : Entry) → lookup shell_id entries ≡ some e → IsEntry store shell_id e

-- what stays of an entry: its process, its command and its files; an exit is final, and an input that was closed
-- is not opened again
pub record Continues (before after : Entry) : Type 0 where
  pub same_pid : after.shell.pid ≡ before.shell.pid
  pub same_child : after.child ≡ before.child
  pub same_command : after.shell.command ≡ before.shell.command
  pub same_stdout_log : after.shell.stdout_log ≡ before.shell.stdout_log
  pub same_creation : after.shell.created_at_ms ≡ before.shell.created_at_ms
  pub exit_is_final : is_running before.shell.status ≡ false → is_running after.shell.status ≡ false
  pub eof_is_final : is_some before.input ≡ false → is_some after.input ≡ false

-- every entry is still there, and continues
abbrev pub Later : List (String × Entry) → List (String × Entry) → Type 0
Later before after =
    (shell_id : String) (e : Entry)
    → lookup shell_id before ≡ some e
    → (e' : Entry) × (lookup shell_id after ≡ some e') × Continues e e'

-- a step that starts in a valid state ends in one, and loses nothing
abbrev pub Moves : Store → Manager → Manager → Type 0
Moves store m m' = IsValid store m.entries → IsValid store m'.entries × Later m.entries m'.entries

pub Continues-refl : (e : Entry) → Continues e e
Continues-refl e = record {
  same_pid = refl;
  same_child = refl;
  same_command = refl;
  same_stdout_log = refl;
  same_creation = refl;
  exit_is_final = λ h. h;
  eof_is_final = λ h. h;
}

pub Continues-trans : (e e₁ e₂ : Entry) → Continues e e₁ → Continues e₁ e₂ → Continues e e₂
Continues-trans e e₁ e₂ c d = record {
  same_pid = d.same_pid ∙ c.same_pid;
  same_child = d.same_child ∙ c.same_child;
  same_command = d.same_command ∙ c.same_command;
  same_stdout_log = d.same_stdout_log ∙ c.same_stdout_log;
  same_creation = d.same_creation ∙ c.same_creation;
  exit_is_final = λ h. d.exit_is_final (c.exit_is_final h);
  eof_is_final = λ h. d.eof_is_final (c.eof_is_final h);
}

module _ (store : Store) where
  pub Moves-refl : (m : Manager) → Moves store m m
  Moves-refl m valid = (valid, λ shell_id e at. (e, at, Continues-refl e))

  pub Moves-trans : (m m₁ m₂ : Manager) → Moves store m m₁ → Moves store m₁ m₂ → Moves store m m₂
  Moves-trans m m₁ m₂ f g valid =
      let (valid₁, later) = f valid in
      let (valid₂, further) = g valid₁ in
      (
        valid₂,
        λ shell_id e at.
            let (e₁, at₁, c) = later shell_id e at in
            let (e₂, at₂, d) = further shell_id e₁ at₁ in (e₂, at₂, Continues-trans e e₁ e₂ c d),
      )

  -- a state with the same entries
  pub Moves-same : (m m' : Manager) → m'.entries ≡ m.entries → Moves store m m'
  Moves-same m m' same valid = (
    λ k e at. valid k e (ap (lookup k) (sym same) ∙ at),
    λ k e at. (e, ap (lookup k) same ∙ at, Continues-refl e),
  )

  -- an entry that is put in place of one that it continues
  pub Moves-update :
      (m m' : Manager) (shell_id : String) (e e' : Entry)
      → lookup shell_id m.entries ≡ some e
      → m'.entries ≡ put shell_id e' m.entries
      → (IsEntry store shell_id e → IsEntry store shell_id e')
      → Continues e e'
      → Moves store m m'
  Moves-update m m' shell_id e e' at new good continues valid = (
    λ j x at'.
        put_cases (IsEntry store j x) shell_id j e' m.entries (ap (lookup j) (sym new) ∙ at')
          (λ name value. rw (sym name, sym value) (good (valid shell_id e at))) (valid j x),
    λ j x at'. later j x at' (Bool-cases (str_eq shell_id j)),
  )
    where
      later :
          (j : String) (x : Entry)
          → lookup j m.entries ≡ some x
          → (str_eq shell_id j ≡ true) ⊎ (str_eq shell_id j ≡ false)
          → (x' : Entry) × (lookup j m'.entries ≡ some x') × Continues x x'
      later j x at' (inl same) =
          let name = (eq_iff shell_id j).0 same in
          let value = some-injective x e (sym at' ∙ ap (λ k. lookup k m.entries) (sym name) ∙ at) in
          (
            e',
            ap (lookup j) new ∙ lookup-put shell_id j e' m.entries ∙ rw same refl,
            rw value continues,
          )
      later j x at' (inr different) = (
        x,
        ap (lookup j) new ∙ lookup-put shell_id j e' m.entries ∙ rw different at',
        Continues-refl x,
      )

  -- an entry under a name that is new
  pub Moves-insert :
      (m m' : Manager) (shell_id : String) (e : Entry)
      → lookup shell_id m.entries ≡ none
      → m'.entries ≡ put shell_id e m.entries
      → IsEntry store shell_id e
      → Moves store m m'
  Moves-insert m m' shell_id e fresh new good valid = (
    λ j x at'.
        put_cases (IsEntry store j x) shell_id j e m.entries (ap (lookup j) (sym new) ∙ at')
          (λ name value. rw (sym name, sym value) good) (valid j x),
    λ j x at'. later j x at' (Bool-cases (str_eq shell_id j)),
  )
    where
      later :
          (j : String) (x : Entry)
          → lookup j m.entries ≡ some x
          → (str_eq shell_id j ≡ true) ⊎ (str_eq shell_id j ≡ false)
          → (x' : Entry) × (lookup j m'.entries ≡ some x') × Continues x x'
      later j x at' (inl same) =
          let name = (eq_iff shell_id j).0 same in
          let there : some x ≡ none = sym at' ∙ ap (λ k. lookup k m.entries) (sym name) ∙ fresh in
          absurd (ground arith)
      later j x at' (inr different) = (
        x,
        ap (lookup j) new ∙ lookup-put shell_id j e m.entries ∙ rw different at',
        Continues-refl x,
      )

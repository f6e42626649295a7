-- ===== src/Manager/Moves.antt =====
-- The operations of the manager (src/native_runtime.rs) on its entries.
use ferrous_framework.Base.{
  ℕ, ◌≡◌, refl, String, Bool, true, Option, none, some, List, Result, ok, err, ensure, arith, inl,
  inr, Bool-cases, Option-cases,
}
use ferrous_framework.Base.Action.{continue, lift, state_of}
use ferrous_framework.Base.Assoc.{lookup}
use ferrous_framework.Shell.Record.{ShellRecord}
use ferrous_framework.Shell.Persist.{Host}
use ferrous_framework.Manager.Defs.{
  Error, Kind, gone, updated, not_live, Entry, Store, Manager, Io, M, persist_record,
  publish_lifecycle, exited_record, with_shell, persist_then_publish, mark_record_exited,
}
use ferrous_framework.Manager.Access.{
  write_all, write_input, write_blocking, write_to_pipe, live_shell_backend, with_newline,
  write_to_shell, closed_record, close_input, send_stdin_eof, send_shell_eof,
}
use ferrous_framework.Manager.Valid.{
  IsEntry, Continues, Moves, Moves-refl, Moves-trans, Moves-same, Moves-update,
}

pub persist_record-same :
    (host : Host) (io : Io) (shell : ShellRecord) (path : String) (m : Manager)
    → (state_of (persist_record host io shell path m)).entries ≡ m.entries
unfolding persist_record
persist_record-same host io shell path m = elim (Bool-cases io.writable) [
  | inl e ↦ rw e refl
  | inr e ↦ rw e refl
]

pub persist_then_publish-same :
    (host : Host) (io : Io) (kind : Kind) (shell : ShellRecord) (path : String) (m : Manager)
    → (state_of (persist_then_publish host io kind shell path m)).entries ≡ m.entries
unfolding persist_record publish_lifecycle
persist_then_publish-same host io kind shell path m = elim (Bool-cases io.writable) [
  | inl e ↦ rw e refl
  | inr e ↦ rw e refl
]

module _ (store : Store) where
  pub continue-Moves :
      {A B : Type 0} (m : Manager) (o : Result Error A × Manager) (f : A → M B)
      → Moves store m (state_of o)
      → ((a : A) (m₁ : Manager) → Moves store m₁ (state_of (f a m₁)))
      → Moves store m (state_of (continue o f))
  continue-Moves m (ok a, m₁) f here there =
      Moves-trans store m m₁ (state_of (f a m₁)) here (there a m₁)
  continue-Moves m (err e, m₁) f here there = here

  -- an entry with the record of its shell exited
  pub exited-IsEntry :
      (io : Io) (code : Option ℕ) (shell_id : String) (e : Entry)
      → IsEntry store shell_id e
      → IsEntry store shell_id (record e { shell = exited_record io code e.shell })
  exited-IsEntry io code shell_id e h = record {
    named = h.named;
    stored = h.stored;
    recorded = h.recorded;
    writes = h.writes;
    ends = h.ends;
    resizes = h.resizes;
    own = h.own;
  }

  pub exited-Continues :
      (io : Io) (code : Option ℕ) (e : Entry)
      → Continues e (record e { shell = exited_record io code e.shell })
  exited-Continues io code e = record {
    same_pid = refl;
    same_child = refl;
    same_command = refl;
    same_stdout_log = refl;
    same_creation = refl;
    exit_is_final = λ h. refl;
    eof_is_final = λ h. h;
  }

  pub mark_record_exited-Moves :
      (host : Host) (io : Io) (fallback : ShellRecord) (code : Option ℕ) (m : Manager)
      → Moves store m (state_of (mark_record_exited host io fallback code m))
  unfolding mark_record_exited
  mark_record_exited-Moves host io fallback code m =
      elim (Option-cases (lookup fallback.id m.entries)) [
        | inl e ↦
            rw (e, mark_record_exited)
              (Moves-same store m
                (state_of (
                  persist_then_publish host io gone (exited_record io code fallback)
                    fallback.record_path m))
                (persist_then_publish-same host io gone (exited_record io code fallback)
                  fallback.record_path m))
        | inr (x, e) ↦
            rw (e, mark_record_exited)
              (let shell = exited_record io code x.shell in
                let m₁ = with_shell fallback.id x shell m in
                Moves-update store m
                  (state_of (persist_then_publish host io gone shell x.record_path m₁)) fallback.id
                  x (record x { shell = shell }) e
                  (persist_then_publish-same host io gone shell x.record_path m₁)
                  (exited-IsEntry io code fallback.id x) (exited-Continues io code x))
      ]

  -- the input
  write_all-Moves :
      (accepts : Option ℕ) (handle : ℕ) (bytes : List ℕ) (m : Manager)
      → Moves store m (state_of (write_all accepts handle bytes m))
  write_all-Moves none handle bytes m =
      Moves-same store m (state_of (write_all none handle bytes m)) refl
  write_all-Moves (some n) handle bytes m =
      Moves-same store m (state_of (write_all (some n) handle bytes m)) refl

  write_input-Moves :
      (accepts : Option ℕ) (input : Option ℕ) (bytes : List ℕ) (m : Manager)
      → Moves store m (state_of (write_input accepts input bytes m))
  write_input-Moves accepts none bytes m = Moves-refl store m
  write_input-Moves accepts (some handle) bytes m = write_all-Moves accepts handle bytes m

  pub write_blocking-Moves :
      (accepts : Option ℕ) (shell_id : String) (bytes : List ℕ) (m : Manager)
      → Moves store m (state_of (write_blocking accepts shell_id bytes m))
  unfolding write_blocking
  write_blocking-Moves accepts shell_id bytes m = elim (Option-cases (lookup shell_id m.entries)) [
    | inl e ↦ rw (e, write_blocking) (Moves-refl store m)
    | inr (x, e) ↦ rw (e, write_blocking) (write_input-Moves accepts x.input bytes m)
  ]

  write_to_pipe-Moves :
      (accepts : Option ℕ) (shell_id : String) (bytes : List ℕ) (m : Manager)
      → Moves store m (state_of (write_to_pipe accepts shell_id bytes m))
  unfolding write_to_pipe
  write_to_pipe-Moves accepts shell_id bytes m =
      continue-Moves m (write_blocking accepts shell_id bytes m)
        (λ found. lift (ensure found not_live)) (write_blocking-Moves accepts shell_id bytes m)
        (λ found m₁. Moves-refl store m₁)

  pub write_to_shell-Moves :
      (accepts : Option ℕ) (shell_id : String) (bytes : List ℕ) (append_newline : Bool)
      (m : Manager)
      → Moves store m (state_of (write_to_shell accepts shell_id bytes append_newline m))
  unfolding write_to_shell
  write_to_shell-Moves accepts shell_id bytes append_newline m =
      continue-Moves m (live_shell_backend shell_id m, m) _ (Moves-refl store m)
        λ backend m₁.
          continue-Moves m₁ (write_to_pipe accepts shell_id (with_newline append_newline bytes) m₁)
            _ (write_to_pipe-Moves accepts shell_id (with_newline append_newline bytes) m₁)
            λ done m₂. Moves-refl store m₂

  closed-IsEntry :
      (io : Io) (shell_id : String) (e : Entry)
      → IsEntry store shell_id e
      → IsEntry store shell_id (record e { input = none; shell = closed_record io e.shell })
  closed-IsEntry io shell_id e h = record {
    named = h.named;
    stored = h.stored;
    recorded = h.recorded;
    writes = λ no_write. absurd (ground arith);
    ends = λ no_eof. absurd (ground arith);
    resizes = h.resizes;
    own = h.own;
  }

  closed-Continues :
      (io : Io) (e : Entry)
      → Continues e (record e { input = none; shell = closed_record io e.shell })
  closed-Continues io e = record {
    same_pid = refl;
    same_child = refl;
    same_command = refl;
    same_stdout_log = refl;
    same_creation = refl;
    exit_is_final = λ h. h;
    eof_is_final = λ h. refl;
  }

  close_input-Moves :
      (host : Host) (io : Io) (shell_id : String) (e : Entry) (input : Option ℕ) (m : Manager)
      → lookup shell_id m.entries ≡ some e
      → Moves store m (state_of (close_input host io shell_id e input m))
  close_input-Moves host io shell_id e none m at = Moves-refl store m
  close_input-Moves host io shell_id e (some handle) m at =
      let shell = closed_record io e.shell in
      let m₁ = with_shell shell_id (record e { input = none }) shell m in
      Moves-update store m (state_of (persist_then_publish host io updated shell e.record_path m₁))
        shell_id e (record e { input = none; shell = shell }) at
        (persist_then_publish-same host io updated shell e.record_path m₁)
        (closed-IsEntry io shell_id e) (closed-Continues io e)

  pub send_stdin_eof-Moves :
      (host : Host) (io : Io) (shell_id : String) (m : Manager)
      → Moves store m (state_of (send_stdin_eof host io shell_id m))
  unfolding send_stdin_eof
  send_stdin_eof-Moves host io shell_id m = elim (Option-cases (lookup shell_id m.entries)) [
    | inl e ↦ rw (e, send_stdin_eof) (Moves-refl store m)
    | inr (x, e) ↦
        rw (e, send_stdin_eof)
          (continue-Moves m (close_input host io shell_id x x.input m) (λ done m'. (ok true, m'))
            (close_input-Moves host io shell_id x x.input m e) (λ done m₁. Moves-refl store m₁))
  ]

  pub send_shell_eof-Moves :
      (host : Host) (io : Io) (shell_id : String) (m : Manager)
      → Moves store m (state_of (send_shell_eof host io shell_id m))
  unfolding send_shell_eof
  send_shell_eof-Moves host io shell_id m =
      continue-Moves m (live_shell_backend shell_id m, m) _ (Moves-refl store m)
        λ backend m₁.
          continue-Moves m₁ (send_stdin_eof host io shell_id m₁) _
            (send_stdin_eof-Moves host io shell_id m₁)
            λ found m₂.
              continue-Moves m₂ (ensure found not_live, m₂) _ (Moves-refl store m₂)
                λ done m₃. Moves-refl store m₃

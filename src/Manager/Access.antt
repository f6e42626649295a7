-- ===== src/Manager/Access.antt =====
-- `write_blocking`, `write_to_pipe_blocking`, `write_to_shell_blocking`, `send_stdin_eof_blocking`,
-- `send_shell_eof_blocking`, `resize_pty_blocking`, `get_pipe_state`, `live_shell_backend` and
-- `live_running_record_by_spec_id` of src/native_runtime.rs. A text is its bytes.
use ferrous_framework.Base.{
  ℕ, String, str_eq, Bool, true, false, ◌&&◌, not, Option, none, some, List, [], ◌∷◌, ◌++◌, Result,
  ok, err, ensure, take, length, if◌then◌else◌,
}
use ferrous_framework.Base.Action.{continue, lift, ◌>>=◌, ◌>>◌}
use ferrous_framework.Base.Assoc.{lookup}
use ferrous_framework.Shell.Record.{Status, is_running, Capabilities, ShellRecord}
use ferrous_framework.Shell.Persist.{Host}
use ferrous_framework.Manager.Defs.{
  Error, not_live, not_running, no_stdin, no_stdin_eof, no_resize, not_written, not_resized,
  updated, Entry, Manager, Io, M, persist_record, publish_lifecycle, persist_then_publish,
  with_shell,
}
use ferrous_framework.Manager.Spawn.{is_some}

-- `FerrousShellInputResult`
pub record InputResult : Type 0 where
  pub shell_id : String
  pub backend : String
  pub accepted : Bool
  pub bytes_written : ℕ
  pub newline_appended : Bool
  pub eof_sent : Bool

-- `FerrousNativePipeState`
pub record PipeState : Type 0 where
  pub shell_id : String
  pub backend : String
  pub pid : ℕ
  pub status : Status
  pub stdin_supported : Bool
  pub stdout_bytes_seen : ℕ
  pub stderr_bytes_seen : ℕ
  pub capabilities : Capabilities

-- `write_all` and `flush`: the stream takes all the bytes (`none`), or so many of them before it fails
abbrev pub write_all : Option ℕ → ℕ → List ℕ → M Bool
write_all none handle bytes m = (ok true, record m { written = m.written ++ (handle, bytes) ∷ [] })
write_all (some n) handle bytes m =
    (err not_written, record m { written = m.written ++ (handle, take n bytes) ∷ [] })

abbrev pub write_input : Option ℕ → Option ℕ → List ℕ → M Bool
write_input accepts none bytes m = (err no_stdin, m)
write_input accepts (some handle) bytes m = write_all accepts handle bytes m

unfoldable pub write_blocking : Option ℕ → String → List ℕ → M Bool
write_blocking accepts shell_id bytes m = elim (lookup shell_id m.entries) [
  | none ↦ (ok false, m)
  | some e ↦ write_input accepts e.input bytes m
]

unfoldable pub write_to_pipe : Option ℕ → String → List ℕ → M (Unit {0})
unfolding write_blocking
write_to_pipe accepts shell_id bytes = do
  found ← write_blocking accepts shell_id bytes
  lift (ensure found not_live)

abbrev pub backend_of : Option Entry → Result Error String
backend_of none = err not_live
backend_of (some e) = if is_running e.shell.status then ok e.shell.backend else err not_running

unfoldable pub live_shell_backend : String → Manager → Result Error String
unfolding lookup
live_shell_backend shell_id m = backend_of (lookup shell_id m.entries)

abbrev pub with_newline : Bool → List ℕ → List ℕ
with_newline append_newline bytes = if append_newline then bytes ++ b'\n' ∷ [] else bytes

unfoldable pub write_to_shell : Option ℕ → String → List ℕ → Bool → M InputResult
unfolding write_to_pipe live_shell_backend
write_to_shell accepts shell_id bytes append_newline = do
  backend ← (λ m. (live_shell_backend shell_id m, m))
  write_to_pipe accepts shell_id (with_newline append_newline bytes)
  lift (
      ok (record {
        shell_id = shell_id;
        backend = backend;
        accepted = true;
        bytes_written = length (with_newline append_newline bytes);
        newline_appended = append_newline;
        eof_sent = false;
      }))

abbrev pub closed_record : Io → ShellRecord → ShellRecord
closed_record io shell = record shell {
  capabilities = record shell.capabilities { stdin_write = false; stdin_eof = false };
  updated_at_ms = io.now;
}

-- The input is taken out of the entry before the record is written.
abbrev pub close_input : Host → Io → String → Entry → Option ℕ → M (Unit {0})
close_input host io shell_id e none m = (err no_stdin_eof, m)
close_input host io shell_id e (some handle) m =
    let shell = closed_record io e.shell in
    persist_then_publish host io updated shell e.record_path
      (with_shell shell_id (record e { input = none }) shell m)

unfoldable pub send_stdin_eof : Host → Io → String → M Bool
unfolding lookup persist_record publish_lifecycle
send_stdin_eof host io shell_id m = elim (lookup shell_id m.entries) [
  | none ↦ (ok false, m)
  | some e ↦ continue (close_input host io shell_id e e.input m) (λ _ m'. (ok true, m'))
]

unfoldable pub send_shell_eof : Host → Io → String → M InputResult
unfolding send_stdin_eof live_shell_backend
send_shell_eof host io shell_id = do
  backend ← (λ m. (live_shell_backend shell_id m, m))
  found ← send_stdin_eof host io shell_id
  lift (ensure found not_live)
  lift (
      ok (record {
        shell_id = shell_id;
        backend = backend;
        accepted = true;
        bytes_written = 0;
        newline_appended = false;
        eof_sent = true;
      }))

-- `applied` says whether `apply_pty_resize` succeeds on the handle
abbrev pub resize_handle : (ℕ → Bool) → Option ℕ → Result Error Bool
resize_handle applied none = err no_resize
resize_handle applied (some handle) = if applied handle then ok true else err not_resized

unfoldable pub resize_pty : (ℕ → Bool) → String → Manager → Result Error Bool
resize_pty applied shell_id m = elim (lookup shell_id m.entries) [
  | none ↦ ok false
  | some e ↦ resize_handle applied e.resize
]

-- `file_len` is the length of a file, 0 if there is none
unfoldable pub get_pipe_state : (String → ℕ) → String → Manager → Option PipeState
get_pipe_state file_len shell_id m = elim (lookup shell_id m.entries) [
  | none ↦ none
  | some e ↦
      if not (str_eq e.shell.backend "pipe") && not (str_eq e.shell.backend "pty")
      then none
      else some (record {
        shell_id = e.shell.id;
        backend = e.shell.backend;
        pid = e.shell.pid;
        status = e.shell.status;
        stdin_supported = is_some e.input && is_running e.shell.status;
        stdout_bytes_seen = file_len e.shell.stdout_log;
        stderr_bytes_seen = file_len e.shell.stderr_log;
        capabilities = e.shell.capabilities;
      })
]

-- `live_running_record_by_spec_id`: the first in the order of the map
unfoldable pub running_with_spec : String → List (String × Entry) → Option ShellRecord
running_with_spec spec_id [] = none
running_with_spec spec_id ((shell_id, e) ∷ rest) =
    let later = running_with_spec spec_id rest in
    if str_eq e.shell.spec_id spec_id && is_running e.shell.status then some e.shell else later

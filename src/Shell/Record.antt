-- ===== src/Shell/Record.antt =====
-- The record types of src/native_runtime.rs. A path is its text, a hash map an association list.
use ferrous_framework.Base.{ℕ, String, Bool, true, false, Option, List}
use ferrous_framework.Json.{Value}

pub data Status : Type 0 where
  running exited : Status

abbrev pub is_running : Status → Bool
is_running running = true
is_running exited = false

pub data PtyMode : Type 0 where
  raw interactive : PtyMode

pub record Capabilities : Type 0 where
  pub stdin_write : Bool
  pub stdin_eof : Bool
  pub stdout_log : Bool
  pub stderr_log : Bool
  pub stdout_subscribe : Bool
  pub stderr_subscribe : Bool
  pub output_read : Bool
  pub terminate : Bool
  pub resize : Bool

-- `FerrousNativeShellRecord`; an exit code is the bit pattern of its `i32`
pub record ShellRecord : Type 0 where
  pub id : String
  pub backend : String
  pub command : List String
  pub cwd : Option String
  pub env : List (String × String)
  pub env_keys : List String
  pub env_overrides : List (String × String)
  pub pid : ℕ
  pub status : Status
  pub exit_code : Option ℕ
  pub label : String
  pub spec_id : String
  pub subgroups : List String
  pub record_path : String
  pub stdout_log : String
  pub stderr_log : String
  pub io_metadata_log : Option String
  pub pty_mode : Option PtyMode
  pub autostart : Bool
  pub ui : List (String × Value)
  pub debug : List (String × Value)
  pub log_codecs : List (String × Value)
  pub runtime_id : Option String
  pub app_id : Option String
  pub parent_shell_id : Option String
  pub is_app_worker : Bool
  pub capabilities : Capabilities
  pub adopted : Bool
  pub created_at_ms : ℕ
  pub updated_at_ms : ℕ

-- `PersistedNativeShellRecord`; a time in seconds is the bit pattern of its `f64`
pub record PersistedRecord : Type 0 where
  pub id : String
  pub spec_id : Option String
  pub backend : Option String
  pub command : List String
  pub cwd : Option String
  pub pid : Option ℕ
  pub status : Option Status
  pub exit_code : Option ℕ
  pub label : Option String
  pub subgroups : List String
  pub record_path : Option String
  pub stdout_log : Option String
  pub stderr_log : Option String
  pub io_metadata_log : Option String
  pub pty_mode : Option PtyMode
  pub autostart : Bool
  pub ui : List (String × Value)
  pub debug : List (String × Value)
  pub log_codecs : List (String × Value)
  pub created_at_ms : ℕ
  pub updated_at_ms : ℕ
  pub created_at : Option ℕ
  pub updated_at : Option ℕ
  pub run_id : Option String
  pub launcher_pid : Option ℕ
  pub env_keys : List String
  pub env_overrides : List (String × Value)
  pub uses_pty : Bool
  pub uses_pipes : Bool
  pub uses_dtach : Bool
  pub runtime_id : Option String
  pub signature : Option String
  pub app_id : Option String
  pub parent_shell_id : Option String
  pub is_app_worker : Bool
  pub capabilities : Capabilities

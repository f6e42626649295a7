-- ===== src/Manager/Apply.antt =====
-- `spawn_rendered_shellspec_with_options_blocking` and `apply_rendered_shellspecs_blocking` of
-- src/native_runtime.rs: the manager starts what src/shellspec.rs rendered.
use ferrous_framework.Base.{
  ℕ, suc, String, str_eq, Bool, true, false, not, Option, none, some, List, [], ◌∷◌, ok, err,
  if◌then◌else◌,
}
use ferrous_framework.Base.Action.{continue}
use ferrous_framework.Base.Assoc.{put}
use ferrous_framework.Json.{Value, Fields, end, field}
use ferrous_framework.Shell.Record.{PtyMode, raw, interactive, ShellRecord}
use ferrous_framework.Shell.Names.{trim, unwrap_or}
use ferrous_framework.Shell.Persist.{Host}
use ferrous_framework.ShellSpec.Entry.{ReadinessProbe, ShellSpec, to_ascii_lowercase}
use ferrous_framework.Manager.Defs.{
  no_autostart, bad_pty_mode, unsupported_backend, not_ready, Store, M, live_records,
}
use ferrous_framework.Manager.Spawn.{
  Config, Metadata, SpawnIo, extend_env, spawn_proc, spawn_pipe, spawn_pty,
}
use ferrous_framework.Manager.Access.{running_with_spec}
use ferrous_framework.Manager.Terminate.{KillIo, terminate_shell}

-- `FerrousShellLaunchOverrides`
pub record LaunchOverrides : Type 0 where
  pub env : List (String × String)
  pub label : Option String
  pub spec_id : Option String
  pub subgroups : Option (List String)
  pub ui : Option (List (String × Value))
  pub debug : Option (List (String × Value))
  pub parent_shell_id : Option String

abbrev pub no_overrides : LaunchOverrides
no_overrides = record {
  env = [];
  label = none;
  spec_id = none;
  subgroups = none;
  ui = none;
  debug = none;
  parent_shell_id = none;
}

-- What one start takes from elsewhere: the answers to the spawn, the master side of a pseudoterminal, the answer of
-- `wait_for_readiness_blocking` (`none` is an error), and the answers to a termination.
pub record Launch : Type 0 where
  pub spawn_io : SpawnIo
  pub master : ℕ
  pub is_ready : ShellRecord → ReadinessProbe → Option Bool
  pub kill_io : KillIo

unfoldable pub field_list : Fields → List (String × Value)
field_list end = []
field_list (field k v fs) = (k, v) ∷ field_list fs

-- `Map::extend`
unfoldable pub extend_map : List (String × Value) → List (String × Value) → List (String × Value)
unfolding put
extend_map fields [] = fields
extend_map fields ((k, v) ∷ more) = extend_map (put k v fields) more

unfoldable pub parse_pty_mode : String → Option PtyMode
unfolding trim to_ascii_lowercase
parse_pty_mode text =
    let mode = to_ascii_lowercase (trim text) in
    if str_eq mode ""
    then some interactive
    else if str_eq mode "interactive"
    then some interactive
    else if str_eq mode "cooked"
    then some interactive
    else if str_eq mode "raw"
    then some raw
    else none

abbrev pub config_of : ShellSpec → Option String → LaunchOverrides → Config
config_of spec log_dir o = record {
  command = spec.command;
  cwd = spec.cwd;
  env = extend_env spec.env o.env;
  label = unwrap_or o.label spec.id;
  spec_id = unwrap_or o.spec_id spec.id;
  subgroups = unwrap_or o.subgroups spec.subgroups;
  log_dir = log_dir;
}

abbrev pub metadata_of : ShellSpec → LaunchOverrides → Metadata
metadata_of spec o = record {
  env_overrides = extend_env spec.env o.env;
  ui = extend_map (field_list spec.ui) (unwrap_or o.ui []);
  debug = extend_map (field_list spec.debug) (unwrap_or o.debug []);
  log_codecs = field_list spec.log_codecs;
  parent_shell_id = o.parent_shell_id;
}

-- the ids that are asked for
unfoldable pub is_desired : String → List ShellSpec → Bool
is_desired spec_id [] = false
is_desired spec_id (spec ∷ specs) =
    let later = is_desired spec_id specs in if str_eq spec.id spec_id then true else later

module _ (host : Host) (store : Store) where
  abbrev pub spawn_in_mode : Launch → Option PtyMode → Config → Metadata → M ShellRecord
  spawn_in_mode launch none c meta m = (err bad_pty_mode, m)
  spawn_in_mode launch (some mode) c meta m =
      spawn_pty host store launch.spawn_io launch.master mode c meta m

  -- the `match` on the backend
  abbrev pub spawn_backend : Launch → ShellSpec → Config → Metadata → M ShellRecord
  spawn_backend launch spec c meta m =
      if str_eq spec.backend "proc"
      then spawn_proc host store launch.spawn_io c meta m
      else if str_eq spec.backend "pipe"
      then spawn_pipe host store launch.spawn_io c meta m
      else if str_eq spec.backend "pty"
      then spawn_in_mode launch (parse_pty_mode spec.pty_mode) c meta m
      else (err unsupported_backend, m)

  -- a shell that does not become ready is terminated, whether or not that succeeds
  abbrev pub ready_or_end : Launch → Option Bool → ShellRecord → M ShellRecord
  ready_or_end launch none shell m = (err not_ready, m)
  ready_or_end launch (some true) shell m = (ok shell, m)
  ready_or_end launch (some false) shell m =
      (err not_ready, (terminate_shell host store launch.kill_io shell.id m).1)

  abbrev pub await_ready : Launch → Option ReadinessProbe → ShellRecord → M ShellRecord
  await_ready launch none shell m = (ok shell, m)
  await_ready launch (some probe) shell m =
      ready_or_end launch (launch.is_ready shell probe) shell m

  unfoldable pub spawn_rendered_shellspec :
      Launch → ShellSpec → Option String → LaunchOverrides → M ShellRecord
  unfolding spawn_proc spawn_pipe spawn_pty terminate_shell parse_pty_mode extend_env extend_map
      field_list
  spawn_rendered_shellspec launch spec log_dir o m =
      if not spec.autostart
      then (err no_autostart, m)
      else continue (spawn_backend launch spec (config_of spec log_dir o) (metadata_of spec o) m)
          (await_ready launch spec.readiness)

  abbrev pub started_too : ShellRecord → List ShellRecord → M (List ShellRecord)
  started_too shell shells m = (ok (shell ∷ shells), m)

  -- the loop over the specifications; `launches` has the answers for each
  unfoldable pub start_missing : (ℕ → Launch) → ℕ → List ShellSpec → M (List ShellRecord)
  unfolding spawn_rendered_shellspec running_with_spec
  start_missing launches n [] m = (ok [], m)
  start_missing launches n (spec ∷ specs) m =
      if not spec.autostart
      then start_missing launches (suc n) specs m
      else elim (running_with_spec spec.id m.entries) [
        | some shell ↦ start_missing launches (suc n) specs m
        | none ↦
            continue (spawn_rendered_shellspec (launches n) spec none no_overrides m)
              λ shell m₁. continue (start_missing launches (suc n) specs m₁) (started_too shell)
      ]

  -- the loop over the live records; `kill` has the answers for each
  unfoldable pub prune_others : KillIo → List ShellSpec → List ShellRecord → M (Unit {0})
  unfolding is_desired terminate_shell
  prune_others kill specs [] m = (ok tt, m)
  prune_others kill specs (shell ∷ shells) m =
      if is_desired shell.spec_id specs
      then prune_others kill specs shells m
      else continue (terminate_shell host store kill shell.id m)
          (λ _. prune_others kill specs shells)

  abbrev pub pruned : KillIo → Bool → List ShellSpec → List ShellRecord → M (List ShellRecord)
  pruned kill prune specs started m =
      if prune
      then continue (prune_others kill specs (live_records m) m) (λ _ m₁. (ok started, m₁))
      else (ok started, m)

  unfoldable pub apply_rendered_shellspecs :
      (ℕ → Launch) → KillIo → List ShellSpec → Bool → M (List ShellRecord)
  unfolding start_missing prune_others live_records
  apply_rendered_shellspecs launches kill specs prune m =
      continue (start_missing launches 0 specs m) (pruned kill prune specs)

-- ===== src/Shell/Adopt.antt =====
-- What a record is after it was written and read back (src/native_runtime.rs).
use ferrous_framework.Base.{
  ℕ, zero, suc, ◌≡◌, refl, ap, String, true, false, ◌||◌, some, List, [], ◌∷◌, arith,
}
use ferrous_framework.Shell.Record.{ShellRecord}
use ferrous_framework.Shell.Names.{or_else, derive_app_id, derive_is_app_worker}
use ferrous_framework.Shell.Persist.{
  Host, to_persisted, from_persisted, adopted_capabilities, observed_status, coerce_ms_timestamp,
  json_object_to_string_map, string_map_to_json_object, map_option,
}

-- No time is written as a positive number of seconds where it is zero milliseconds.
pub record ZeroIsZero (host : Host) : Type 0 where
  pub zero_seconds : host.is_positive (host.to_seconds 0) ≡ false

-- `r` as another manager sees it
pub adopt : Host → ShellRecord → ShellRecord
adopt host r = record r {
  cwd = map_option host.path_to_string r.cwd;
  record_path = host.path_to_string r.record_path;
  stdout_log = host.path_to_string r.stdout_log;
  stderr_log = host.path_to_string r.stderr_log;
  io_metadata_log = map_option host.path_to_string r.io_metadata_log;
  env = [];
  status = observed_status host r.pid (some r.status);
  app_id = or_else r.app_id (derive_app_id r.label r.subgroups);
  is_app_worker = r.is_app_worker || derive_is_app_worker r.label r.subgroups;
  capabilities = adopted_capabilities r.capabilities;
  adopted = true;
}

map_back :
    (host : Host) (m : List (String × String))
    → json_object_to_string_map host (string_map_to_json_object m) ≡ m
unfolding json_object_to_string_map string_map_to_json_object
map_back host [] = refl
map_back host ((k, v) ∷ m) = ap (◌∷◌ (k, v)) (map_back host m)

time_back :
    (host : Host) (ms : ℕ)
    → ZeroIsZero host
    → coerce_ms_timestamp host ms (some (host.to_seconds ms)) ≡ ms
unfolding coerce_ms_timestamp
time_back host zero z = rw (z.zero_seconds) refl
time_back host (suc ms) z = ground arith

pub from-to_persisted :
    (host : Host) (path : String) (r : ShellRecord)
    → ZeroIsZero host
    → from_persisted host path (to_persisted host r) ≡ adopt host r
unfolding from_persisted to_persisted adopt
from-to_persisted host path r z =
    rw (map_back, time_back host r.created_at_ms z, time_back host r.updated_at_ms z)

-- ===== src/RuntimeConfig/Tests.antt =====
-- The theorems on the runtime configuration at concrete data.
use komari_agent.Shared.{◌≡◌, ◌≤◌, refl, ◌⊎◌, true, false, none, some, List, [], ◌∷◌}
use komari_agent.Shared.Results.{ok, err}
use komari_agent.Shared.Int.{pos}
use komari_agent.Shared.Texts.{trim_space}
use komari_agent.Privileged.Model.{Settings, no_settings}
use komari_agent.RuntimeConfig.Model.{
  Snapshot, RuntimeConfig, DesiredConfig, ConfigError, validate_names, validate, interval_of,
  from_proto, is_supported, clean,
}
use komari_agent.RuntimeConfig.Store.{
  Store, World, Faults, apply_with_receipt, rollback, write_temporary, save_backup, replace_file,
  write_file, persist, install, prepare, new_store,
}
use komari_agent.RuntimeConfig.Files.{state_of}
use komari_agent.RuntimeConfig.Requests.{Request, apply, roll_back, restart, run}
use komari_agent.RuntimeConfig.Snapshots.{IsValid, fresh, run_keeps_install_only, run-restarts}
use komari_agent.RuntimeConfig.Updates.{apply_with_receipt_lem, rollback_twice}
use komari_agent.RuntimeConfig.Redelivery.{apply_again}
use komari_agent.RuntimeConfig.Effective.{
  Policy, Config, policy_allows, inspect, effective_for_mode,
}
use komari_agent.RuntimeConfig.Ceiling.{IsAllowed, IsCoherent, effective-IsAllowed}

abbrev initial : Snapshot
initial = record {
  revision = 0;
  memory_include_cache = false;
  enable_gpu = true;
  detailed_gpu = true;
  include_nics = [];
  exclude_nics = [];
  include_mountpoints = [];
  report_interval = pos 3000000000;
  traffic_reset_day = 1;
  remote_control_enabled = false;
  get_ip_addr_from_nic = false;
}

abbrev message : RuntimeConfig
message = record {
  unknown = false;
  set_fields = [];
  memory_include_cache = some true;
  enable_gpu = none;
  detailed_gpu = none;
  include_nics = "eth0" ∷ [];
  exclude_nics = [];
  include_mountpoints = [];
  report_interval = none;
  traffic_reset_day = none;
  remote_control_enabled = none;
  get_ip_addr_from_nic = none;
}

abbrev desired : DesiredConfig
desired = record { revision = 7; runtime = some message }

abbrev no_faults : Faults
no_faults = record {
  make_directory = false;
  create = false;
  chmod = false;
  write = false;
  sync = false;
  close = false;
  read = false;
  rename = false;
  sync_directory = false;
  backup = false;
}

abbrev start : World
start = fresh "runtime.json" initial

abbrev requests : List (Faults × Request)
requests =
    (no_faults, apply desired "receipt")
    ∷ (record no_faults { sync_directory = true }, roll_back)
    ∷ (no_faults, restart)
    ∷ []

applied : (apply_with_receipt no_faults desired "receipt" start).0 ≡ ok tt
unfolding apply_with_receipt prepare from_proto validate validate_names interval_of clean trim_space
    is_supported install persist write_file write_temporary save_backup replace_file
applied = refl

abbrev after : World
after = (apply_with_receipt no_faults desired "receipt" start).1

initial_valid : validate initial ≡ ok tt
unfolding validate validate_names
initial_valid = refl

run_keeps_install_only_example :
    ((run initial requests start).store.current.remote_control_enabled ≡ false)
    × ((run initial requests start).store.current.enable_gpu ≡ true)
run_keeps_install_only_example = run_keeps_install_only "runtime.json" initial requests

run-restarts_example :
    (s : Store) × (new_store initial false (run initial requests start).disk.file ≡ ok s)
    × IsValid (state_of s)
run-restarts_example = run-restarts "runtime.json" initial requests initial_valid

apply_with_receipt_lem_example :
    ((apply_with_receipt no_faults desired "receipt" start).0 ≡ ok tt
      × (0 ≤ 7)
      × ((apply_with_receipt no_faults desired "receipt" start).1.store.current.revision ≡ 7))
    ⊎ (((e : ConfigError) × ((apply_with_receipt no_faults desired "receipt" start).0 ≡ err e))
        × ((apply_with_receipt no_faults desired "receipt" start).1.store ≡ start.store))
apply_with_receipt_lem_example = apply_with_receipt_lem no_faults desired "receipt" start

rolled_back : (rollback no_faults after).0 ≡ ok tt
unfolding rollback apply_with_receipt prepare from_proto validate validate_names interval_of clean
    trim_space is_supported install persist write_file write_temporary save_backup replace_file
rolled_back = refl

rolled_back_again : (rollback no_faults (rollback no_faults after).1).0 ≡ ok tt
unfolding rollback apply_with_receipt prepare from_proto validate validate_names interval_of clean
    trim_space is_supported install persist write_file write_temporary save_backup replace_file
rolled_back_again = refl

rollback_twice_example :
    (previous : Snapshot) × (after.store.previous ≡ some previous)
    × ((rollback no_faults after).1.store ≡ record {
      current = previous;
      previous = some after.store.current;
      receipts = after.store.receipts;
    })
    × ((rollback no_faults (rollback no_faults after).1).1.store ≡ after.store)
rollback_twice_example = rollback_twice no_faults no_faults after rolled_back rolled_back_again

apply_again_example : apply_with_receipt no_faults desired "" after ≡ (ok tt, after)
apply_again_example = apply_again no_faults no_faults desired "receipt" start applied

abbrev policy : Policy
policy = record {
  privilege_mode = 2;
  allow_remote_control = true;
  allow_webssh = false;
  allow_execution = true;
  allow_gpu = true;
  force_deny_remote_control = false;
  allow_rescue_helper = false;
  force_deny_rescue_helper = false;
  helper_authorized = false;
  helper_installed = false;
  disable_source = "";
  baseline_remote_control = true;
  baseline_webssh = false;
  baseline_execution = false;
  baseline_gpu = false;
  host_revision = 0;
  host_settings = none;
}

abbrev config : Config
config = record {
  interval = pos 1000000000;
  token = "token";
  disable_remote_control = false;
  memory_include_cache = false;
  enable_gpu = true;
  detailed_gpu = false;
  include_nics = [];
  exclude_nics = [];
  include_mountpoints = [];
  month_rotate = pos 0;
  get_ip_addr_from_nic = false;
  service_manifest_file = "manifest.json";
}

effective-IsAllowed_example :
    IsAllowed
      (some policy)
      (effective_for_mode 2 (inspect config none none (some policy))).privileged
    × IsCoherent config (effective_for_mode 2 (inspect config none none (some policy)))
effective-IsAllowed_example = effective-IsAllowed config none none (some policy) 2 refl

abbrev modest : Settings
modest = record no_settings {
  required_privilege_mode = 2;
  remote_control_enabled = true;
  execution_enabled = true;
}

modest_allowed : policy_allows modest (some policy) ≡ true
unfolding policy_allows
modest_allowed = refl

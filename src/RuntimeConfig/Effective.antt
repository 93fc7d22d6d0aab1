-- ===== src/RuntimeConfig/Effective.antt =====
-- What is in force after the privileged track and the local policy (core/runtimeconfig/effective.go
-- and `FromFlags` of store.go). The policy is what `hostops` reads for the installation, or none
-- when it cannot be read; the texts that explain the result (sources, reasons) are left out.
use komari_agent.Shared.{
  ℕ, ◌%◌, Bool, false, not, ◌&&◌, ◌||◌, Option, none, some, List, String, str_eq, ◌==◌, leb,
  if◌then◌else◌, from_option,
}
use komari_agent.Shared.Int.{ℤ, pos}
use komari_agent.Privileged.Model.{Settings, no_settings, State, effective}
use komari_agent.RuntimeConfig.Model.{Snapshot, interval_eq}

-- The fields of `hostops.Policy` that this code reads.
pub record Policy : Type 0 where
  pub privilege_mode : ℕ
  pub allow_remote_control : Bool
  pub allow_webssh : Bool
  pub allow_execution : Bool
  pub allow_gpu : Bool
  pub force_deny_remote_control : Bool
  pub allow_rescue_helper : Bool
  pub force_deny_rescue_helper : Bool
  pub helper_authorized : Bool
  pub helper_installed : Bool
  pub disable_source : String
  pub baseline_remote_control : Bool
  pub baseline_webssh : Bool
  pub baseline_execution : Bool
  pub baseline_gpu : Bool
  pub host_revision : ℕ
  pub host_settings : Option Settings

-- The flags, with the lists split and the interval converted.
pub record Config : Type 0 where
  pub interval : ℤ
  pub token : String
  pub disable_remote_control : Bool
  pub memory_include_cache : Bool
  pub enable_gpu : Bool
  pub detailed_gpu : Bool
  pub include_nics : List String
  pub exclude_nics : List String
  pub include_mountpoints : List String
  pub month_rotate : ℤ
  pub get_ip_addr_from_nic : Bool
  pub service_manifest_file : String

pub record EffectiveConfig : Type 0 where
  pub runtime : Snapshot
  pub privileged : Settings

abbrev pub allows_remote_control : Policy → Bool
allows_remote_control p = p.allow_remote_control && not p.force_deny_remote_control

abbrev pub allows_rescue_helper : Policy → Bool
allows_rescue_helper p =
    p.allow_rescue_helper
    && not p.force_deny_rescue_helper
    && p.helper_installed
    && p.helper_authorized

-- `PolicyAllows`
unfoldable pub policy_allows : Settings → Option Policy → Bool
policy_allows s none = false
policy_allows s (some p) =
    s.required_privilege_mode == p.privilege_mode
    && (not s.remote_control_enabled || allows_remote_control p)
    && (not s.web_ssh_enabled || p.allow_webssh)
    && (not s.execution_enabled || p.allow_execution)
    && (not s.enable_gpu || p.allow_gpu)
    && (not s.rescue_helper_enabled || allows_rescue_helper p)

abbrev pub positive_part : ℤ → ℕ
positive_part (pos n) = n
positive_part _ = 0

unfoldable pub from_flags : Config → Snapshot
from_flags c = record {
  revision = 0;
  memory_include_cache = c.memory_include_cache;
  enable_gpu = c.enable_gpu;
  detailed_gpu = c.detailed_gpu;
  include_nics = c.include_nics;
  exclude_nics = c.exclude_nics;
  include_mountpoints = c.include_mountpoints;
  report_interval = if interval_eq c.interval (pos 0) then pos 3000000000 else c.interval;
  traffic_reset_day = positive_part c.month_rotate % 4294967296;
  remote_control_enabled = not (str_eq c.token "") && not c.disable_remote_control;
  get_ip_addr_from_nic = c.get_ip_addr_from_nic;
}

-- Without a privileged store, what the runtime snapshot enables.
unfoldable pub bootstrap : Snapshot → Settings
bootstrap raw = record no_settings {
  remote_control_enabled = raw.remote_control_enabled;
  web_ssh_enabled = raw.remote_control_enabled;
  execution_enabled = raw.remote_control_enabled;
  enable_gpu = raw.enable_gpu;
}

unfoldable pub requested : Snapshot → Option State → Settings
requested raw none = bootstrap raw
requested raw (some s) = effective s

-- The applied identity has to be that of the installation.
unfoldable pub match_mode : Policy → Settings → Settings
match_mode p s =
    if not (s.required_privilege_mode == 0) && not (s.required_privilege_mode == p.privilege_mode)
    then no_settings
    else s

unfoldable pub cap : Policy → Settings → Settings
cap p s = record s {
  remote_control_enabled = s.remote_control_enabled && allows_remote_control p;
  web_ssh_enabled = s.web_ssh_enabled && p.allow_webssh;
  execution_enabled = s.execution_enabled && p.allow_execution;
  enable_gpu = s.enable_gpu && p.allow_gpu;
  rescue_helper_enabled = s.rescue_helper_enabled && allows_rescue_helper p;
}

abbrev pub both : Settings → Settings → Settings
both s t = record s {
  remote_control_enabled = s.remote_control_enabled && t.remote_control_enabled;
  web_ssh_enabled = s.web_ssh_enabled && t.web_ssh_enabled;
  execution_enabled = s.execution_enabled && t.execution_enabled;
  enable_gpu = s.enable_gpu && t.enable_gpu;
  rescue_helper_enabled = s.rescue_helper_enabled && t.rescue_helper_enabled;
}

-- What the host approved limits a state that is not newer.
unfoldable pub host_ceiling : Policy → Option State → Settings → Settings
host_ceiling p none s = s
host_ceiling p (some state) s = elim p.host_settings [
  | none ↦ s
  | some target ↦ if leb state.applied_revision p.host_revision then both s target else s
]

-- The policy is read only where the installation has a manifest.
unfoldable pub apply_policy : Config → Option Policy → Option State → Settings → Settings
apply_policy c p state s = if str_eq c.service_manifest_file "" then s else elim p [
  | none ↦ no_settings
  | some policy ↦ host_ceiling policy state (cap policy (match_mode policy s))
]

-- A local refusal of remote control, and what depends on remote control.
unfoldable pub close_session : Config → Settings → Settings
close_session c s =
    let remote = s.remote_control_enabled && not c.disable_remote_control in
    record s {
      remote_control_enabled = remote;
      web_ssh_enabled = remote && s.web_ssh_enabled;
      execution_enabled = remote && s.execution_enabled;
    }

unfoldable pub inspect : Config → Option Snapshot → Option State → Option Policy → EffectiveConfig
inspect c runtime_store privileged_store p =
    let raw = from_option (from_flags c) runtime_store in
    let s = close_session c (apply_policy c p privileged_store (requested raw privileged_store)) in
    record {
      runtime = record raw {
        enable_gpu = s.enable_gpu;
        remote_control_enabled = s.remote_control_enabled;
        detailed_gpu = raw.detailed_gpu && s.enable_gpu;
      };
      privileged = s;
    }

-- `EffectiveForMode`: the daemon has to run as the identity that is required.
unfoldable pub effective_for_mode : ℕ → EffectiveConfig → EffectiveConfig
effective_for_mode actual e =
    let required = e.privileged.required_privilege_mode in
    if not (required == 0) && not (required == actual)
    then record {
      runtime = record e.runtime {
        remote_control_enabled = false;
        enable_gpu = false;
        detailed_gpu = false;
      };
      privileged = no_settings;
    }
    else e

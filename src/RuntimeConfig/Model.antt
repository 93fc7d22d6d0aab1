-- ===== src/RuntimeConfig/Model.antt =====
-- `Snapshot`, `fromProto` and `validate` of core/runtimeconfig/store.go. A duration is a signed
-- number of nanoseconds. Of the protobuf message there are the fields that the code reads, and the
-- numbers of the fields that are set.
use Prim.Native.String.{len}
use komari_agent.Shared.{
  ℕ, Bool, true, false, not, ◌&&◌, ◌||◌, Option, none, some, List, [], ◌∷◌, String, str_eq, ◌==◌,
  ltb, if◌then◌else◌, is_some, from_option, length, any,
}
use komari_agent.Shared.Results.{Result, ok, err, ◌>>=◌, ◌>>◌, reject_if}
use komari_agent.Shared.Texts.{trim_space}
use komari_agent.Shared.Int.{ℤ, pos, ltb_ℤ}
use komari_agent.Privileged.Model.{bool_eq}

pub record Snapshot : Type 0 where
  pub revision : ℕ
  pub memory_include_cache : Bool
  pub enable_gpu : Bool
  pub detailed_gpu : Bool
  pub include_nics : List String
  pub exclude_nics : List String
  pub include_mountpoints : List String
  pub report_interval : ℤ
  pub traffic_reset_day : ℕ
  pub remote_control_enabled : Bool
  pub get_ip_addr_from_nic : Bool

pub record ProtoDuration : Type 0 where
  pub as_duration : ℤ
  pub is_valid : Bool

pub record RuntimeConfig : Type 0 where
  pub unknown : Bool
  pub set_fields : List ℕ
  pub memory_include_cache : Option Bool
  pub enable_gpu : Option Bool
  pub detailed_gpu : Option Bool
  pub include_nics : List String
  pub exclude_nics : List String
  pub include_mountpoints : List String
  pub report_interval : Option ProtoDuration
  pub traffic_reset_day : Option ℕ
  pub remote_control_enabled : Option Bool
  pub get_ip_addr_from_nic : Option Bool

pub record DesiredConfig : Type 0 where
  pub revision : ℕ
  pub runtime : Option RuntimeConfig

pub data ConfigError : Type 0 where
  desired_required revision_zero stale_revision outbox_full different_content : ConfigError
  unknown_fields unsupported_fields gpu_install_only remote_install_only : ConfigError
  invalid_interval interval_out_of_range reset_day_out_of_range too_many_entries : ConfigError
  entry_too_long no_previous io_failed undecodable : ConfigError

abbrev pub second : ℕ
second = 1000000000

abbrev pub minimum_report_interval : ℤ
minimum_report_interval = pos 1000000000

-- Five minutes.
abbrev pub maximum_report_interval : ℤ
maximum_report_interval = pos 300000000000

-- The field numbers that the agent supports.
unfoldable pub is_supported : ℕ → Bool
is_supported n = n == 1 || n == 3 || n == 4 || n == 5 || n == 6 || n == 7 || n == 8 || n == 19

-- The bounds of one list of names.
unfoldable pub validate_names : List String → Result ConfigError (Unit {0})
validate_names values = do
  reject_if (ltb 128 (length values)) too_many_entries
  reject_if (any (λ item. ltb 512 (len item)) values) entry_too_long

-- The three lists stand in a Go map there, so which of their errors comes first is left open.
unfoldable pub validate : Snapshot → Result ConfigError (Unit {0})
validate s = do
  reject_if
      (ltb_ℤ s.report_interval minimum_report_interval
        || ltb_ℤ maximum_report_interval s.report_interval)
      interval_out_of_range
  reject_if (ltb 31 s.traffic_reset_day) reset_day_out_of_range
  validate_names s.include_nics
  validate_names s.exclude_nics
  validate_names s.include_mountpoints

-- The names without surrounding spaces, and without those that are blank.
unfoldable pub clean : List String → List String
clean [] = []
clean (v ∷ values) = if str_eq (trim_space v) "" then clean values else trim_space v ∷ clean values

unfoldable pub interval_of : ℤ → Option ProtoDuration → Result ConfigError ℤ
interval_of old none = ok old
interval_of old (some d) = if d.is_valid then ok d.as_duration else err invalid_interval

-- Scalar fields that are not set keep their value; lists are full replacements.
unfoldable pub from_proto : Snapshot → ℕ → RuntimeConfig → Result ConfigError Snapshot
from_proto base revision value = do
  reject_if value.unknown unknown_fields
  reject_if (any (λ n. not (is_supported n)) value.set_fields) unsupported_fields
  reject_if (is_some value.enable_gpu) gpu_install_only
  reject_if (is_some value.remote_control_enabled) remote_install_only
  interval ← interval_of base.report_interval value.report_interval
  let result : Snapshot = record base {
    revision = revision;
    memory_include_cache = from_option base.memory_include_cache value.memory_include_cache;
    detailed_gpu = from_option base.detailed_gpu value.detailed_gpu;
    include_nics = clean value.include_nics;
    exclude_nics = clean value.exclude_nics;
    include_mountpoints = clean value.include_mountpoints;
    traffic_reset_day = from_option base.traffic_reset_day value.traffic_reset_day;
    get_ip_addr_from_nic = from_option base.get_ip_addr_from_nic value.get_ip_addr_from_nic;
    report_interval = interval;
  }
  validate result
  ok result

abbrev pub names_eq : List String → List String → Bool
names_eq [] [] = true
names_eq (x ∷ xs) (y ∷ ys) = str_eq x y && names_eq xs ys
names_eq _ _ = false

abbrev pub interval_eq : ℤ → ℤ → Bool
interval_eq a b = not (ltb_ℤ a b) && not (ltb_ℤ b a)

-- `reflect.DeepEqual` on two snapshots that were cloned.
unfoldable pub snapshot_eq : Snapshot → Snapshot → Bool
snapshot_eq a b =
    a.revision == b.revision
    && bool_eq a.memory_include_cache b.memory_include_cache
    && bool_eq a.enable_gpu b.enable_gpu
    && bool_eq a.detailed_gpu b.detailed_gpu
    && names_eq a.include_nics b.include_nics
    && names_eq a.exclude_nics b.exclude_nics
    && names_eq a.include_mountpoints b.include_mountpoints
    && interval_eq a.report_interval b.report_interval
    && a.traffic_reset_day == b.traffic_reset_day
    && bool_eq a.remote_control_enabled b.remote_control_enabled
    && bool_eq a.get_ip_addr_from_nic b.get_ip_addr_from_nic

-- ===== src/Privileged/Model.antt =====
-- Data of core/privileged: `Settings`, `State` and `Receipt`, the fields of the protobuf messages
-- that the package reads, and the pure functions on them. A privilege mode is its enum number, 0
-- for unspecified; a time is a number of nanoseconds, 0 for the zero time.
use mathlib.Core.Bool.{not}
use komari_agent.Shared.{
  ℕ, ◌/◌, ◌%◌, Bool, true, false, ◌&&◌, ◌||◌, Option, none, some, List, [], ◌∷◌, ◌++◌, String, ◌==◌,
  from_option,
}

pub record Settings : Type 0 where
  pub required_privilege_mode : ℕ
  pub remote_control_enabled : Bool
  pub web_ssh_enabled : Bool
  pub execution_enabled : Bool
  pub enable_gpu : Bool
  pub rescue_helper_enabled : Bool

-- `Settings{}`, the most restrictive value.
abbrev pub no_settings : Settings
no_settings = record {
  required_privilege_mode = 0;
  remote_control_enabled = false;
  web_ssh_enabled = false;
  execution_enabled = false;
  enable_gpu = false;
  rescue_helper_enabled = false;
}

abbrev pub bool_eq : Bool → Bool → Bool
bool_eq true b = b
bool_eq false b = not b

-- `a == b` on the struct.
unfoldable pub settings_eq : Settings → Settings → Bool
settings_eq a b =
    a.required_privilege_mode == b.required_privilege_mode
    && bool_eq a.remote_control_enabled b.remote_control_enabled
    && bool_eq a.web_ssh_enabled b.web_ssh_enabled
    && bool_eq a.execution_enabled b.execution_enabled
    && bool_eq a.enable_gpu b.enable_gpu
    && bool_eq a.rescue_helper_enabled b.rescue_helper_enabled

-- `PrivilegedConfig`: the optional fields are pointers.
pub record PrivilegedConfig : Type 0 where
  pub required_privilege_mode : ℕ
  pub remote_control_enabled : Option Bool
  pub web_ssh_enabled : Option Bool
  pub execution_enabled : Option Bool
  pub enable_gpu : Option Bool
  pub rescue_helper_enabled : Option Bool

-- The getters of a missing message or field return the zero value.
unfoldable pub settings_from_proto : Option PrivilegedConfig → Settings
settings_from_proto none = no_settings
settings_from_proto (some value) = record {
  required_privilege_mode = value.required_privilege_mode;
  remote_control_enabled = from_option false value.remote_control_enabled;
  web_ssh_enabled = from_option false value.web_ssh_enabled;
  execution_enabled = from_option false value.execution_enabled;
  enable_gpu = from_option false value.enable_gpu;
  rescue_helper_enabled = from_option false value.rescue_helper_enabled;
}

-- `Settings.Proto`
unfoldable pub proto : Settings → PrivilegedConfig
proto s = record {
  required_privilege_mode = s.required_privilege_mode;
  remote_control_enabled = some s.remote_control_enabled;
  web_ssh_enabled = some s.web_ssh_enabled;
  execution_enabled = some s.execution_enabled;
  enable_gpu = some s.enable_gpu;
  rescue_helper_enabled = some s.rescue_helper_enabled;
}

abbrev pub bit : Bool → ℕ
bit true = 1
bit false = 0

-- "komari.privileged-settings.v1\x00"
abbrev pub hash_domain : List ℕ
hash_domain =
    107 ∷ 111 ∷ 109 ∷ 97 ∷ 114 ∷ 105 ∷ 46 ∷ 112 ∷ 114 ∷ 105 ∷ 118 ∷ 105 ∷ 108 ∷ 101 ∷ 103 ∷ 101
    ∷ 100 ∷ 45 ∷ 115 ∷ 101 ∷ 116 ∷ 116 ∷ 105 ∷ 110 ∷ 103 ∷ 115 ∷ 46 ∷ 118 ∷ 49 ∷ 0 ∷ []

-- `binary.BigEndian.AppendUint32`
abbrev pub big_endian : ℕ → List ℕ
big_endian n = (n / 16777216 % 256) ∷ (n / 65536 % 256) ∷ (n / 256 % 256) ∷ (n % 256) ∷ []

-- The bytes that `Hash` digests.
unfoldable pub hash_input : Settings → List ℕ
hash_input s =
    hash_domain
    ++ (bit s.remote_control_enabled
        ∷ bit s.web_ssh_enabled
        ∷ bit s.execution_enabled
        ∷ bit s.enable_gpu
        ∷ bit s.rescue_helper_enabled
        ∷ big_endian s.required_privilege_mode)

-- The digest of the standard library is the first argument: SHA-256 in hexadecimal.
unfoldable pub hash : (List ℕ → String) → Settings → String
unfolding hash_input
hash sha256_hex s = sha256_hex (hash_input s)

pub record Receipt : Type 0 where
  pub id : String
  pub kind : String
  pub payload : List ℕ
  pub rejected : String

pub record State : Type 0 where
  pub last_sequence : ℕ
  pub active_signed_revision : String
  pub outbox : List Receipt
  pub rejected_receipts : List Receipt
  pub applied_revision : ℕ
  pub active : Settings
  pub previous : Option Settings
  pub previous_revision : ℕ
  pub pending_revision : ℕ
  pub pending : Option Settings
  pub pending_class : ℕ
  pub pending_reasons : List String
  pub pending_task_id : String
  pub pending_nonce : String
  pub pending_expiry : ℕ
  pub updated_at : ℕ

unfoldable pub clear_pending : State → State
clear_pending s = record s {
  pending_revision = 0;
  pending = none;
  pending_class = 0;
  pending_reasons = [];
  pending_task_id = "";
  pending_nonce = "";
  pending_expiry = 0;
}

-- `Subset a b`: `a` grants nothing that `b` does not grant.
unfoldable pub subset : Settings → Settings → Bool
subset a b =
    (a.required_privilege_mode == b.required_privilege_mode || a.required_privilege_mode == 0)
    && (not a.remote_control_enabled || b.remote_control_enabled)
    && (not a.web_ssh_enabled || b.web_ssh_enabled)
    && (not a.execution_enabled || b.execution_enabled)
    && (not a.enable_gpu || b.enable_gpu)
    && (not a.rescue_helper_enabled || b.rescue_helper_enabled)

-- The body of `Effective` under `if p := state.Pending; p != nil`.
unfoldable pub restrict : Settings → Settings → Settings
restrict a p = record a {
  remote_control_enabled = a.remote_control_enabled && p.remote_control_enabled;
  web_ssh_enabled = a.web_ssh_enabled && p.web_ssh_enabled;
  execution_enabled = a.execution_enabled && p.execution_enabled;
  enable_gpu = a.enable_gpu && p.enable_gpu;
  rescue_helper_enabled = a.rescue_helper_enabled && p.rescue_helper_enabled;
}

-- `Store.Effective`, on the state that it reads.
unfoldable pub effective : State → Settings
unfolding restrict
effective s = elim s.pending [ none ↦ s.active | some p ↦ restrict s.active p ]

-- A protobuf timestamp: `AsTime`, and whether `CheckValid` accepts it.
pub record Timestamp : Type 0 where
  pub as_time : ℕ
  pub is_valid : Bool

pub record ManualTask : Type 0 where
  pub task_id : String
  pub nonce : String
  pub expires_at : Option Timestamp

pub record Plan : Type 0 where
  pub upgrade_class : ℕ
  pub reasons : List String
  pub manual_task : Option ManualTask

-- `HostAuthorization`; `unknown` tells whether the message carries unknown fields.
pub record Authorization : Type 0 where
  pub unknown : Bool
  pub agent_id : String
  pub service_id : String
  pub revision : ℕ
  pub config_hash : String
  pub approval_generation : ℕ
  pub actions : List ℕ
  pub target_privilege_mode : ℕ
  pub nonce : String
  pub approved_by : String
  pub issued_at : Option Timestamp
  pub expires_at : Option Timestamp

-- The values of `PrivilegedDeliveryState` that the agent tells apart.
pub data DeliveryState : Type 0 where
  awaiting_agent applying delivered other_state : DeliveryState

-- `PrivilegedRevision`; of the signature only its presence is read here.
pub record Revision : Type 0 where
  pub agent_id : String
  pub revision : ℕ
  pub protocol_version : ℕ
  pub approval_generation : ℕ
  pub update_sequence : ℕ
  pub installation_baseline : Bool
  pub state : DeliveryState
  pub is_signed : Bool
  pub privileged : Option PrivilegedConfig
  pub config_hash : String
  pub authorization : Option Authorization
  pub plan : Option Plan

pub record HostOperation : Type 0 where
  pub phase : ℕ
  pub operation_id : String
  pub authorization : Option Authorization

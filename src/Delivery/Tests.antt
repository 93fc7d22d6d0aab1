-- ===== src/Delivery/Tests.antt =====
-- A revision that the daemon applies, at concrete values (clientcore/privileged_apply.go).
use komari_agent.Shared.{
  ◌≡◌, refl, true, false, none, some, [], ◌∷◌, String, str_eq, replicate, if◌then◌else◌,
}
use komari_agent.Shared.Texts.{trim_space}
use komari_agent.Signing.Replay.{GuardFaults}
use komari_agent.Signing.Verify.{
  Crypto, new_verifier, verify, check_envelope, verify_signatures, tally, tally_one, judge, join,
  vouches, find_key, is_candidate, verify_one, check_binding, consume_nonce,
}
use komari_agent.Privileged.Model.{
  Settings, no_settings, hash, hash_input, PrivilegedConfig, settings_from_proto, Receipt, State,
  clear_pending, Authorization, awaiting_agent, Revision,
}
use komari_agent.Privileged.Approval.{
  is_current, is_bound, in_window, validate_authorization, validate_approval,
}
use komari_agent.Privileged.Commit.{
  Codec, World, no_faults, Call, file_hash, check_fresh, write_temporary, publish, write_state,
  commit, commit_result,
}
use komari_agent.Privileged.Operations.{
  record_pending, prepare_pending, with_plan, with_task, encoded, enqueue, has_receipt,
  prepare_approved, commit_approved, apply_approved, finish_receipt, finish_state, unfinished,
  finished, truncate_rejected,
}
use komari_agent.RuntimeConfig.Effective.{Policy, policy_allows}
use komari_agent.Host.Verify.{Messages, revision_kind}
use komari_agent.Delivery.Receipts.{taken, answer_of, finish, flush_each, flush}
use komari_agent.Delivery.Baseline.{
  Notice, Station, Surroundings, verify_v2, verify_as, check_verified, has_bad_settings,
}
use komari_agent.Delivery.Apply.{
  acknowledge, proceed, confirm, has_changed, installed, authorize, approval_of, grant,
  check_settings, apply_with, fail_privileged, handle, record_privileged,
}
use komari_agent.Delivery.Grants.{active_of}
use komari_agent.Delivery.Justified.{SettingsChange, settings_are_justified}

abbrev guard_faults : GuardFaults
guard_faults = record {
  read = false;
  make_directory = false;
  create = false;
  chmod = false;
  write = false;
  sync = false;
  close = false;
  rename = false;
}

abbrev crypto : Crypto
crypto = record {
  decode_base64 = λ s. if str_eq s "key" then some (replicate 32 7) else none;
  verify_ed25519 = λ key payload signature. str_eq signature "good";
  unmarshal = λ payload. some (record {
    agent_id = "agent";
    nonce = "n";
    instruction_type = revision_kind;
    body = payload;
    issued_at = 900;
    expires_at = 2000;
  });
}

abbrev messages : Messages
messages = record {
  encode_revision = λ _. some "revision 5";
  encode_operation = λ _. none;
  same_authorization = λ _ _. true;
  sha256_hex = λ _. "digest";
}

abbrev codec : Codec
codec = record {
  digest = λ s. if str_eq s "old" then 1 else 2;
  sha256_hex = λ b. "digest";
  encode = λ s. some "new";
  decode = λ s. none;
  marshal = λ r. some "revision";
  same_authorization = λ a b. true;
}

abbrev call : Call
call = record { codec = codec; faults = no_faults; now = 1000 }

abbrev blank : State
blank = record {
  last_sequence = 3;
  active_signed_revision = "";
  outbox = [];
  rejected_receipts = [];
  applied_revision = 1;
  active = record no_settings { required_privilege_mode = 2; enable_gpu = true };
  previous = none;
  previous_revision = 0;
  pending_revision = 0;
  pending = none;
  pending_class = 0;
  pending_reasons = [];
  pending_task_id = "";
  pending_nonce = "";
  pending_expiry = 0;
  updated_at = 0;
}

abbrev world : World
world = record { store = record { state = blank; disk_hash = 1 }; file = some "old" }

abbrev wider : Settings
wider = record no_settings {
  required_privilege_mode = 2;
  remote_control_enabled = true;
  execution_enabled = true;
}

abbrev config : PrivilegedConfig
config = record {
  required_privilege_mode = 2;
  remote_control_enabled = some true;
  web_ssh_enabled = none;
  execution_enabled = some true;
  enable_gpu = none;
  rescue_helper_enabled = none;
}

abbrev authorization : Authorization
authorization = record {
  unknown = false;
  agent_id = "agent";
  service_id = "service";
  revision = 5;
  config_hash = "digest";
  approval_generation = 1;
  actions = [];
  target_privilege_mode = 2;
  nonce = "n";
  approved_by = "admin";
  issued_at = some (record { as_time = 900; is_valid = true });
  expires_at = some (record { as_time = 2000; is_valid = true });
}

abbrev approved : Revision
approved = record {
  agent_id = "agent";
  revision = 5;
  protocol_version = 2;
  approval_generation = 1;
  update_sequence = 4;
  installation_baseline = false;
  state = awaiting_agent;
  is_signed = true;
  privileged = some config;
  config_hash = "digest";
  authorization = some authorization;
  plan = none;
}

abbrev notice : Notice
notice = record {
  signed = record {
    revision = approved;
    signature = some (record {
      payload = "revision 5";
      signatures = record { algorithm = 1; key_id = "k"; value = "good" } ∷ [];
    });
    unknown = false;
    unknown_settings = false;
  };
  is_received = false;
}

abbrev station : Station
station = record {
  crypto = crypto;
  messages = messages;
  identity = some (record {
    agent_id = "agent";
    control_plane_keys =
        record { key_id = "k"; algorithm = 1; value = "key"; not_before = 0; not_after = none }
        ∷ [];
    policy_algorithms = [];
    policy_require_all = false;
    policy_minimum_signatures = 1;
  });
  agent_id = "agent";
  service = some "service";
  disable_remote_control = false;
}

abbrev policy : Policy
policy = record {
  privilege_mode = 2;
  allow_remote_control = true;
  allow_webssh = false;
  allow_execution = true;
  allow_gpu = true;
  force_deny_remote_control = false;
  allow_rescue_helper = false;
  force_deny_rescue_helper = false;
  helper_authorized = false;
  helper_installed = false;
  disable_source = "";
  baseline_remote_control = false;
  baseline_webssh = false;
  baseline_execution = false;
  baseline_gpu = false;
  host_revision = 0;
  host_settings = none;
}

abbrev receipt : String → Receipt
receipt id = record { id = id; kind = "privileged"; payload = []; rejected = "" }

abbrev surroundings : Policy → Surroundings
surroundings p = record {
  now = 1000;
  guard_faults = guard_faults;
  actual = 2;
  current = some notice;
  start_policy = some p;
  policy = some p;
  operation = none;
  helper_ready = false;
  received = some (receipt "received-5");
  delivered = some (receipt "delivered");
  failed = some (receipt "failed");
  pend_call = call;
  receipt_call = call;
  apply_call = call;
  fail_call = call;
  post = record { answer = λ _. taken; call = λ _. call; mark = λ s. s };
}

applies : active_of (record_privileged station (surroundings policy) notice world).1 ≡ wider
unfolding record_privileged handle verify_v2 verify_as check_verified has_bad_settings verify
    check_envelope verify_signatures tally tally_one judge join vouches find_key is_candidate
    verify_one check_binding consume_nonce new_verifier trim_space settings_from_proto hash
    hash_input record_pending prepare_pending with_plan with_task commit_result commit check_fresh
    file_hash write_state write_temporary publish acknowledge enqueue has_receipt proceed confirm
    has_changed installed authorize approval_of validate_approval is_current validate_authorization
    is_bound in_window grant check_settings policy_allows apply_with apply_approved commit_approved
    prepare_approved encoded clear_pending fail_privileged flush flush_each finish answer_of
    finish_receipt finish_state unfinished finished truncate_rejected
applies = refl

-- Where the policy does not allow execution, the settings in force stay.
keeps :
    active_of
      (record_privileged station
        (surroundings (record policy { allow_execution = false }))
        notice
        world).1
    ≡ blank.active
unfolding record_privileged handle verify_v2 verify_as check_verified has_bad_settings verify
    check_envelope verify_signatures tally tally_one judge join vouches find_key is_candidate
    verify_one check_binding consume_nonce new_verifier trim_space settings_from_proto hash
    hash_input record_pending prepare_pending with_plan with_task commit_result commit check_fresh
    file_hash write_state write_temporary publish acknowledge enqueue has_receipt proceed confirm
    has_changed installed authorize approval_of validate_approval is_current validate_authorization
    is_bound in_window grant check_settings policy_allows apply_with apply_approved commit_approved
    prepare_approved encoded clear_pending fail_privileged flush flush_each finish answer_of
    finish_receipt finish_state unfinished finished truncate_rejected
keeps = refl

settings_are_justified_example :
    SettingsChange station
      (surroundings policy)
      notice
      blank.active
      (active_of (record_privileged station (surroundings policy) notice world).1)
settings_are_justified_example = settings_are_justified station (surroundings policy) notice world

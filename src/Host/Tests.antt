-- ===== src/Host/Tests.antt =====
-- A host revision at concrete values (core/hostops, internal/hostcmd).
use komari_agent.Shared.{
  ◌≡◌, refl, true, false, not, ◌&&◌, none, some, [], ◌∷◌, str_eq, replicate, if◌then◌else◌,
}
use komari_agent.Shared.Results.{ok, err}
use komari_agent.Shared.Texts.{trim_space}
use komari_agent.Signing.Replay.{GuardFaults}
use komari_agent.Signing.Verify.{
  Crypto, PinnedKey, new_verifier, verify, check_envelope, verify_signatures, tally, tally_one,
  judge, join, vouches, find_key, is_candidate, verify_one, check_binding, consume_nonce,
}
use komari_agent.Privileged.Model.{
  PrivilegedConfig, settings_from_proto, hash, hash_input, Authorization, Revision, awaiting_agent,
}
use komari_agent.Privileged.Approval.{in_window}
use komari_agent.RuntimeConfig.Effective.{Policy, policy_allows}
use komari_agent.Host.Trust.{
  exceeds_ceilings, Trust, validate, is_endpoint, valid_service, is_named_key,
}
use komari_agent.Host.Verify.{
  SignedRevision, Messages, revision_kind, verify_revision, verify_signed_revision, verify_body,
  check_body, has_other_settings, check_authorization, is_bound, are_distinct, has_action,
}
use komari_agent.Host.Actions.{
  validate_actions, check_actions, local_ceiling_violations, legacy_review, is_review, next_policy,
  current_mode,
}
use komari_agent.Host.Ceilings.{KeepsCeilings, validate_actions_lem, validated_is_allowed}
use komari_agent.Host.Approvals.{IsSigned, IsApproved, verify_revision_sound}

abbrev no_faults : GuardFaults
no_faults = record {
  read = false;
  make_directory = false;
  create = false;
  chmod = false;
  write = false;
  sync = false;
  close = false;
  rename = false;
}

abbrev pinned : PinnedKey
pinned = record { key_id = "k"; algorithm = 1; value = "key"; not_before = 0; not_after = none }

abbrev crypto : Crypto
crypto = record {
  decode_base64 = λ s. if str_eq s "key" then some (replicate 32 7) else none;
  verify_ed25519 = λ key payload signature. str_eq signature "good";
  unmarshal = λ payload. some (record {
    agent_id = "agent";
    nonce = "n";
    instruction_type = revision_kind;
    body = payload;
    issued_at = 1000000000000;
    expires_at = 2000000000000;
  });
}

abbrev messages : Messages
messages = record {
  encode_revision = λ _. some "revision 7";
  encode_operation = λ _. none;
  same_authorization = λ _ _. false;
  sha256_hex = λ _. "digest";
}

abbrev trust : Trust
trust = record {
  version = 2;
  agent_id = "agent";
  endpoint = "https://panel";
  service_id = "komari-agent";
  service_user = "komari";
  panel_keys = pinned ∷ [];
  release_keys = pinned ∷ [];
}

-- Remote control and the rescue helper are asked for, as root.
abbrev wanted : PrivilegedConfig
wanted = record {
  required_privilege_mode = 1;
  remote_control_enabled = some true;
  web_ssh_enabled = none;
  execution_enabled = none;
  enable_gpu = none;
  rescue_helper_enabled = some true;
}

abbrev approval : Authorization
approval = record {
  unknown = false;
  agent_id = "agent";
  service_id = "komari-agent";
  revision = 7;
  config_hash = "digest";
  approval_generation = 2;
  actions = 1 ∷ 2 ∷ [];
  target_privilege_mode = 1;
  nonce = "nonce";
  approved_by = "admin";
  issued_at = some (record { as_time = 1000000000000; is_valid = true });
  expires_at = some (record { as_time = 2000000000000; is_valid = true });
}

abbrev revision : Revision
revision = record {
  agent_id = "agent";
  revision = 7;
  protocol_version = 2;
  approval_generation = 2;
  update_sequence = 3;
  installation_baseline = false;
  state = awaiting_agent;
  is_signed = true;
  privileged = some wanted;
  config_hash = "digest";
  authorization = some approval;
  plan = none;
}

abbrev signed : SignedRevision
signed = record {
  revision = revision;
  signature = some (record {
    payload = "revision 7";
    signatures = record { algorithm = 1; key_id = "k"; value = "good" } ∷ [];
  });
  unknown = false;
  unknown_settings = false;
}

verifies_revision : verify_revision crypto messages no_faults 1500000000000 trust signed ≡ ok tt
unfolding verify_revision verify_signed_revision verify_body check_body has_other_settings
    check_authorization is_bound are_distinct in_window settings_from_proto hash hash_input verify
    check_envelope verify_signatures tally tally_one judge join vouches find_key is_candidate
    verify_one check_binding consume_nonce new_verifier trim_space
verifies_revision = refl

verify_revision_sound_example :
    IsSigned crypto 1500000000000 trust signed.signature false (some "revision 7") revision_kind
    × (signed.unknown_settings ≡ false)
    × IsApproved messages.sha256_hex 1500000000000 trust revision
verify_revision_sound_example =
    verify_revision_sound crypto messages no_faults 1500000000000 trust signed verifies_revision

-- A service of the user komari, with an old restriction that nobody reviewed.
abbrev policy : Policy
policy = record {
  privilege_mode = 2;
  allow_remote_control = true;
  allow_webssh = false;
  allow_execution = true;
  allow_gpu = true;
  force_deny_remote_control = true;
  allow_rescue_helper = false;
  force_deny_rescue_helper = false;
  helper_authorized = false;
  helper_installed = false;
  disable_source = "legacy-unknown-preserve";
  baseline_remote_control = true;
  baseline_webssh = false;
  baseline_execution = false;
  baseline_gpu = false;
  host_revision = 0;
  host_settings = none;
}

abbrev preview : Policy
preview = record policy { force_deny_remote_control = false }

accepts_actions : validate_actions preview trust revision approval "komari" ≡ ok tt
unfolding validate_actions check_actions local_ceiling_violations settings_from_proto
accepts_actions = refl

validate_actions_lem_example :
    (current_mode "komari" ≡ 2)
    × (has_action 1 approval.actions ≡ true)
    × (has_action 2 approval.actions ≡ (
        (settings_from_proto (some wanted)).rescue_helper_enabled && not preview.helper_installed))
    × (has_action 3 approval.actions ≡ (
        not (settings_from_proto (some wanted)).rescue_helper_enabled && preview.helper_installed))
validate_actions_lem_example =
    validate_actions_lem preview trust revision approval "komari" accepts_actions

accepts_reviewed :
    validate_actions (legacy_review policy revision).0 trust revision approval "komari" ≡ ok tt
unfolding validate_actions check_actions local_ceiling_violations settings_from_proto legacy_review
    is_review
accepts_reviewed = refl

validated_is_allowed_example :
    (q : Policy) × (next_policy (legacy_review policy revision).1 policy revision approval ≡ ok q)
    × (policy_allows (settings_from_proto (some wanted)) (some q) ≡ true)
    × KeepsCeilings policy q (legacy_review policy revision).1 (has_action 2 approval.actions)
validated_is_allowed_example =
    validated_is_allowed policy trust revision approval "komari" accepts_reviewed

-- A policy without that history refuses the same revision.
refuses_actions :
    validate_actions
      (legacy_review (record policy { disable_source = "admin" }) revision).0
      trust
      revision
      approval
      "komari"
    ≡ err exceeds_ceilings
unfolding validate_actions check_actions local_ceiling_violations settings_from_proto legacy_review
    is_review
refuses_actions = refl

-- The check of the trust itself.
validates :
    validate crypto
      (λ _. some (record {
        scheme = "https";
        host = "panel";
        hostname = "panel";
        has_user = false;
        raw_query = "";
        fragment = "";
      }))
      trust
    ≡ ok tt
unfolding validate is_endpoint valid_service is_named_key
validates = refl

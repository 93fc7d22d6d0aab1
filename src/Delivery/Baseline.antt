-- ===== src/Delivery/Baseline.antt =====
-- `verifyV2Revision`, `localBaseline` and `acceptBaseline` (clientcore/baseline.go), and the surroundings
-- of a call: what the panel answers, the policy that is read, the detected identity, the checked host
-- operation and the status of the helper. The receipts come encoded, or not where that fails.
use komari_agent.Shared.{
  ℕ, Bool, false, not, ◌&&◌, ◌||◌, Option, none, some, String, str_eq, ◌==◌, leb, if◌then◌else◌,
  is_some,
}
use komari_agent.Shared.Results.{Result, ok, err, ◌>>◌, reject_if}
use komari_agent.Signing.Replay.{GuardFaults}
use komari_agent.Signing.Verify.{Crypto, Identity, Verified, VerifyError, new_verifier, verify}
use komari_agent.Privileged.Model.{
  Settings, no_settings, settings_eq, settings_from_proto, hash, Receipt, Authorization, Revision,
  HostOperation,
}
use komari_agent.Privileged.Commit.{World, Call}
use komari_agent.Privileged.Commit.{Outcome as StoreOutcome}
use komari_agent.Privileged.Operations.{adopt_baseline}
use komari_agent.RuntimeConfig.Effective.{Policy}
use komari_agent.Host.Verify.{SignedRevision, Messages, revision_kind}
use komari_agent.Delivery.Receipts.{
  DeliveryError, no_identity, not_v2, unencodable, other_body, other_agent, bad_settings,
  no_installation, baseline_mismatch, unverified, store_failed, Outcome, Post, flush,
}

-- A revision as it is delivered, and whether its receipt is known to the panel.
pub record Notice : Type 0 where
  pub signed : SignedRevision
  pub is_received : Bool

-- What does not change from call to call; `service` is that of the manifest.
pub record Station : Type 0 where
  pub crypto : Crypto
  pub messages : Messages
  pub identity : Option Identity
  pub agent_id : String
  pub service : Option String
  pub disable_remote_control : Bool

-- `operation` is what `checkedHostOperation` returns. `start_policy` is the policy that was read when
-- the daemon started, `policy` the one of this call.
pub record Surroundings : Type 0 where
  pub now : ℕ
  pub guard_faults : GuardFaults
  pub actual : ℕ
  pub current : Option Notice
  pub start_policy : Option Policy
  pub policy : Option Policy
  pub operation : Option HostOperation
  pub helper_ready : Bool
  pub received : Option Receipt
  pub delivered : Option Receipt
  pub failed : Option Receipt
  pub pend_call : Call
  pub receipt_call : Call
  pub apply_call : Call
  pub fail_call : Call
  pub post : Post

abbrev pub Done : Type 0
Done = Result DeliveryError (Unit {0})

abbrev pub check_encoded : Option String → String → Done
check_encoded none body = err unencodable
check_encoded (some b) body = reject_if (not (str_eq b body)) other_body

unfoldable pub has_bad_settings : Messages → SignedRevision → Bool
has_bad_settings m r =
    not (is_some r.revision.privileged)
    || r.unknown_settings
    || not (
        str_eq r.revision.config_hash
          (hash m.sha256_hex (settings_from_proto r.revision.privileged)))

unfoldable pub check_verified :
    Messages → Identity → SignedRevision → Result VerifyError Verified → Done
check_verified m i r (err e) = err (unverified e)
check_verified m i r (ok v) = do
  reject_if
      (not (r.revision.protocol_version == 2)
        || not (str_eq v.instruction.instruction_type revision_kind))
      not_v2
  check_encoded (m.encode_revision r) v.instruction.body
  reject_if (not (str_eq r.revision.agent_id i.agent_id) || r.unknown) other_agent
  reject_if (has_bad_settings m r) bad_settings

unfoldable pub verify_as : Station → Surroundings → SignedRevision → Option Identity → Done
verify_as st x r none = err no_identity
verify_as st x r (some i) =
    check_verified st.messages i r
      (verify st.crypto x.guard_faults x.now r.signature (new_verifier i none)).0

-- `verifyV2Revision`
unfoldable pub verify_v2 : Station → Surroundings → SignedRevision → Done
verify_v2 st x r = verify_as st x r st.identity

-- `localBaseline`
unfoldable pub local_baseline : Station → Policy → Settings
local_baseline st p =
    let remote =
      p.baseline_remote_control
      && not p.force_deny_remote_control
      && p.allow_remote_control
      && not st.disable_remote_control in
    record {
      required_privilege_mode = p.privilege_mode;
      remote_control_enabled = remote;
      web_ssh_enabled = remote && p.baseline_webssh && p.allow_webssh;
      execution_enabled = remote && p.baseline_execution && p.allow_execution;
      enable_gpu = p.baseline_gpu && p.allow_gpu;
      rescue_helper_enabled = false;
    }

-- A baseline that grants nothing is accepted whatever the installation allows.
unfoldable pub baseline_of : Station → Surroundings → Policy → Revision → Settings
baseline_of st x p r =
    let denied : Settings = record no_settings { required_privilege_mode = x.actual } in
    if settings_eq (settings_from_proto r.privileged) denied then denied else local_baseline st p

abbrev pub is_baseline_approval :
    Station → Surroundings → String → Revision → Option Authorization → Bool
is_baseline_approval st x service r none = false
is_baseline_approval st x service r (some a) =
    str_eq a.service_id service
    && str_eq a.agent_id st.agent_id
    && a.revision == 1
    && str_eq a.config_hash r.config_hash
    && a.approval_generation == 1
    && a.target_privilege_mode == x.actual

-- What follows a call of the store: its error ends the handler.
abbrev pub then_flush : Surroundings → StoreOutcome → Outcome
then_flush x (err e, w) = (err (store_failed e), w)
then_flush x (ok _, w) = flush x.post w

unfoldable pub adopt : Station → Surroundings → Policy → Revision → Option Receipt → World → Outcome
adopt st x p r none w = (err unencodable, w)
adopt st x p r (some receipt) w =
    then_flush x (adopt_baseline x.apply_call r (baseline_of st x p r) x.actual receipt w)

unfoldable pub accept_checked :
    Station → Surroundings → String → Policy → SignedRevision → World → Outcome
accept_checked st x service p r w =
    if not (is_baseline_approval st x service r.revision r.revision.authorization)
    then (err baseline_mismatch, w)
    else adopt st x p r.revision x.delivered w

abbrev pub after_check : Done → World → Outcome → Outcome
after_check (err e) w next = (err e, w)
after_check (ok _) w next = next

unfoldable pub accept_installed :
    Station → Surroundings → SignedRevision → Option String → Option Policy → World → Outcome
accept_installed st x r (some service) (some p) w =
    if leb 1 w.store.state.applied_revision
    then flush x.post w
    else after_check (verify_v2 st x r) w (accept_checked st x service p r w)
accept_installed st x r none p w = (err no_installation, w)
accept_installed st x r (some service) none w = (err no_installation, w)

-- `acceptBaseline`
unfoldable pub accept_baseline : Station → Surroundings → SignedRevision → World → Outcome
accept_baseline st x r w = accept_installed st x r st.service x.start_policy w

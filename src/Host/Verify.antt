-- ===== src/Host/Verify.antt =====
-- `verifyBody`, `VerifySignedRevision`, `VerifyRevision` and `VerifyOperation` of
-- core/hostops/authorization.go. The deterministic encoding of messages and their comparison are
-- parameters; a timestamp that is absent reads as the epoch.
use komari_agent.Shared.{
  ℕ, Bool, true, false, not, ◌&&◌, ◌||◌, Option, none, some, List, [], ◌∷◌, String, str_eq, ◌==◌,
  ltb, leb, any, is_some,
}
use komari_agent.Shared.Results.{Result, ok, err, ◌>>◌, reject_if}
use komari_agent.Signing.Replay.{GuardFaults}
use komari_agent.Signing.Verify.{Crypto, Envelope, Verified, VerifyError, new_verifier, verify}
use komari_agent.Privileged.Model.{
  settings_from_proto, hash, Timestamp, Authorization, Revision, HostOperation,
}
use komari_agent.Privileged.Approval.{in_window}
use komari_agent.Host.Trust.{
  Done, missing_revision, missing_operation, type_mismatch, unencodable, other_body,
  binding_mismatch, approval_expired, bad_action, conflicting_actions, lease_mismatch, unverified,
  Trust, identity_of,
}

-- A revision with its signature; `unknown` and `unknown_settings` tell of unknown fields.
pub record SignedRevision : Type 0 where
  pub revision : Revision
  pub signature : Option Envelope
  pub unknown : Bool
  pub unknown_settings : Bool

pub record SignedOperation : Type 0 where
  pub operation : HostOperation
  pub signature : Option Envelope
  pub unknown : Bool
  pub lease_expires_at : Option Timestamp

-- The encodings are those of the messages without their signature.
pub record Messages : Type 0 where
  pub encode_revision : SignedRevision → Option String
  pub encode_operation : SignedOperation → Option String
  pub same_authorization : Option Authorization → Option Authorization → Bool
  pub sha256_hex : List ℕ → String

abbrev pub check_encoded : Option String → String → Done
check_encoded none body = err unencodable
check_encoded (some b) body = reject_if (not (str_eq b body)) other_body

unfoldable pub check_body : Bool → Option String → String → Result VerifyError Verified → Done
check_body unknown encoded kind (err e) = err (unverified e)
check_body unknown encoded kind (ok v) = do
  reject_if (not (str_eq v.instruction.instruction_type kind) || unknown) type_mismatch
  check_encoded encoded v.instruction.body

-- `verifyBody`: no record of nonces is kept here, so the faults of one do not matter.
unfoldable pub verify_body :
    Crypto → GuardFaults → ℕ → Trust → Option Envelope → Bool → Option String → String → Done
verify_body crypto f now t envelope unknown encoded kind =
    check_body unknown encoded kind
      (verify crypto f now envelope (new_verifier (identity_of t) none)).0

abbrev pub revision_kind : String
revision_kind = "komari.config.v2.PrivilegedRevision"

abbrev pub operation_kind : String
operation_kind = "komari.host.v1.HostOperation"

unfoldable pub has_other_settings : Messages → Trust → SignedRevision → Bool
has_other_settings m t r =
    not (r.revision.protocol_version == 2)
    || not (str_eq r.revision.agent_id t.agent_id)
    || not (is_some r.revision.privileged)
    || r.unknown_settings
    || not (
        str_eq r.revision.config_hash
          (hash m.sha256_hex (settings_from_proto r.revision.privileged)))

-- `VerifySignedRevision`
unfoldable pub verify_signed_revision :
    Crypto → Messages → GuardFaults → ℕ → Trust → Option SignedRevision → Done
verify_signed_revision crypto m f now t none = err missing_revision
verify_signed_revision crypto m f now t (some r) = do
  verify_body crypto f now t r.signature r.unknown (m.encode_revision r) revision_kind
  reject_if (has_other_settings m t r) binding_mismatch

unfoldable pub is_bound : Trust → Revision → Authorization → Bool
is_bound t r a =
    not (r.revision == 0)
    && not r.installation_baseline
    && not a.unknown
    && str_eq a.agent_id t.agent_id
    && str_eq a.service_id t.service_id
    && a.revision == r.revision
    && str_eq a.config_hash r.config_hash
    && a.approval_generation == r.approval_generation
    && not (a.approval_generation == 0)
    && not (str_eq a.nonce "")
    && not (str_eq a.approved_by "")
    && a.target_privilege_mode == (settings_from_proto r.privileged).required_privilege_mode

abbrev pub has_action : ℕ → List ℕ → Bool
has_action n actions = any (λ a. a == n) actions

-- The loop over the actions: each is known, and none is repeated.
unfoldable pub are_distinct : List ℕ → List ℕ → Bool
are_distinct seen [] = true
are_distinct seen (a ∷ actions) =
    leb 1 a && leb a 3 && not (has_action a seen) && are_distinct (a ∷ seen) actions

unfoldable pub check_authorization : ℕ → Trust → Revision → Option Authorization → Done
check_authorization now t r none = err binding_mismatch
check_authorization now t r (some a) = do
  reject_if (not (is_bound t r a)) binding_mismatch
  reject_if (not (in_window now a.issued_at a.expires_at)) approval_expired
  reject_if (not (are_distinct [] a.actions)) bad_action
  reject_if (has_action 2 a.actions && has_action 3 a.actions) conflicting_actions

-- `VerifyRevision`
unfoldable pub verify_revision : Crypto → Messages → GuardFaults → ℕ → Trust → SignedRevision → Done
verify_revision crypto m f now t r = do
  verify_signed_revision crypto m f now t (some r)
  check_authorization now t r.revision r.revision.authorization

abbrev pub time_of : Option Timestamp → ℕ
time_of none = 0
time_of (some t) = t.as_time

abbrev pub expiry_of : Option Authorization → ℕ
expiry_of none = 0
expiry_of (some a) = time_of a.expires_at

unfoldable pub is_lease : ℕ → ℕ → ℕ → Option Timestamp → Bool
is_lease now phase limit none = false
is_lease now phase limit (some lease) =
    lease.is_valid && (leb 3 phase || ltb now lease.as_time) && leb lease.as_time limit

-- `VerifyOperation`
unfoldable pub verify_operation :
    Crypto
    → Messages
    → GuardFaults
    → ℕ
    → Trust
    → Option SignedOperation
    → Option Authorization
    → String
    → Done
verify_operation crypto m f now t none a id = err missing_operation
verify_operation crypto m f now t (some op) a id = do
  verify_body crypto f now t op.signature op.unknown (m.encode_operation op) operation_kind
  reject_if
      (not (str_eq op.operation.operation_id id)
        || str_eq id ""
        || not (m.same_authorization a op.operation.authorization)
        || not (is_lease now op.operation.phase (expiry_of a) op.lease_expires_at))
      lease_mismatch

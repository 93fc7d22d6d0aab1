-- ===== src/Privileged/Approval.antt =====
-- `ValidateApproval` of core/privileged/approval.go: the binding of a signed approval to this agent,
-- its service, its identity and its settings. `now` is what `time.Now` returns during the call.
use komari_agent.Shared.{
  ℕ, ◌+◌, Bool, true, false, not, ◌&&◌, Option, none, some, List, [], ◌∷◌, String, str_eq, ◌==◌,
  ltb, is_some,
}
use komari_agent.Shared.Results.{Result, err, ◌>>◌, reject_if}
use komari_agent.Privileged.Model.{
  settings_from_proto, hash, Timestamp, Authorization, DeliveryState, awaiting_agent, applying,
  Revision,
}

-- The errors of the package, one for each message.
pub data Error : Type 0 where
  missing_revision not_newer stale_pending unsigned_promotion no_previous rollback_widens : Error
  invalid_baseline baseline_exceeds baseline_actions baseline_history baseline_conflict : Error
  outbox_full marshal_failed : Error
  approval_required binding_mismatch bad_timestamps hash_mismatch identity_differs : Error
  operation_mismatch stale_approval : Error
  io_failed stale_store encode_failed : Error

-- One minute in nanoseconds.
abbrev pub minute : ℕ
minute = 60000000000

abbrev pub is_awaiting : DeliveryState → Bool
is_awaiting awaiting_agent = true
is_awaiting _ = false

abbrev pub is_applying : DeliveryState → Bool
is_applying awaiting_agent = false
is_applying applying = true
is_applying _ = false

abbrev pub is_empty {ℓ} : {A : Type ℓ} → List A → Bool
is_empty [] = true
is_empty (_ ∷ _) = false

-- The first test: a signed version 2 approval that awaits the agent.
unfoldable pub is_current : Revision → Bool
is_current r =
    r.protocol_version == 2
    && not r.installation_baseline
    && is_awaiting r.state
    && not (r.revision == 0)
    && not (r.approval_generation == 0)
    && r.is_signed
    && is_some r.authorization

-- The second test: everything that the authorization repeats is the same as in the revision.
unfoldable pub is_bound : Revision → Authorization → String → String → ℕ → Bool
unfolding settings_from_proto
is_bound r a agent service actual =
    not a.unknown
    && str_eq a.agent_id agent
    && str_eq r.agent_id agent
    && str_eq a.service_id service
    && not (str_eq service "")
    && a.revision == r.revision
    && str_eq a.config_hash r.config_hash
    && a.approval_generation == r.approval_generation
    && is_empty a.actions
    && a.target_privilege_mode == actual
    && (settings_from_proto r.privileged).required_privilege_mode == actual
    && not (str_eq a.nonce "")
    && not (str_eq a.approved_by "")

-- The third test, on timestamps that are present.
unfoldable pub in_window : ℕ → Option Timestamp → Option Timestamp → Bool
in_window now (some issued) (some expires) =
    issued.is_valid
    && expires.is_valid
    && not (ltb (now + minute) issued.as_time)
    && ltb now expires.as_time
    && ltb issued.as_time expires.as_time
in_window now _ _ = false

-- What follows the first test, where the authorization is present.
unfoldable pub validate_authorization :
    (List ℕ → String) → Revision → Authorization → String → String → ℕ → ℕ → Result Error (Unit {0})
validate_authorization sha256_hex r a agent service actual now = do
  reject_if (not (is_bound r a agent service actual)) binding_mismatch
  reject_if (not (in_window now a.issued_at a.expires_at)) bad_timestamps
  reject_if (not (str_eq r.config_hash (hash sha256_hex (settings_from_proto r.privileged))))
      hash_mismatch
  reject_if (not ((settings_from_proto r.privileged).required_privilege_mode == actual))
      identity_differs

unfoldable pub validate_approval :
    (List ℕ → String) → Revision → String → String → ℕ → ℕ → Result Error (Unit {0})
validate_approval sha256_hex r agent service actual now = elim r.authorization [
  | none ↦ err approval_required
  | some a ↦ do
    reject_if (not (is_current r)) approval_required
    validate_authorization sha256_hex r a agent service actual now
]

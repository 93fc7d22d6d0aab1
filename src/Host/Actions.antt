-- ===== src/Host/Actions.antt =====
-- What a host transaction may do under the local policy: `validateActions`, the policy that
-- `executeTransaction` writes (internal/hostcmd/transaction_linux.go), `legacyRemoteControlReview` and
-- `localCeilingViolations` (internal/hostcmd/legacy_policy_linux.go). A violation is its kind; its text
-- is left out.
use komari_agent.Shared.{
  ℕ, Bool, true, false, not, ◌&&◌, ◌||◌, some, List, [], ◌∷◌, ◌++◌, String, str_eq, ◌==◌,
  if◌then◌else◌, length,
}
use komari_agent.Shared.Results.{Result, ok, err, ◌>>=◌, ◌>>◌, reject_if}
use komari_agent.Privileged.Model.{Settings, bool_eq, settings_from_proto, Authorization, Revision}
use komari_agent.RuntimeConfig.Effective.{Policy}
use komari_agent.Host.Trust.{
  HostError, Done, unsupported_mode, other_user, identity_action_mismatch, exceeds_ceilings,
  no_release_key, helper_action_mismatch, no_actions, no_service_user, restriction_changed, Trust,
}
use komari_agent.Host.Verify.{has_action}

pub data Violation : Type 0 where
  remote_control_denied remote_control_not_allowed webssh_not_allowed : Violation
  execution_not_allowed gpu_not_allowed rescue_helper_denied rescue_helper_not_allowed : Violation

abbrev pub violation_if : Bool → Violation → List Violation
violation_if true v = v ∷ []
violation_if false v = []

-- `localCeilingViolations`
unfoldable pub local_ceiling_violations : Policy → Settings → Bool → List Violation
local_ceiling_violations p s installing =
    violation_if (s.remote_control_enabled && p.force_deny_remote_control) remote_control_denied
    ++ violation_if (s.remote_control_enabled && not p.allow_remote_control)
        remote_control_not_allowed
    ++ violation_if (s.web_ssh_enabled && not p.allow_webssh) webssh_not_allowed
    ++ violation_if (s.execution_enabled && not p.allow_execution) execution_not_allowed
    ++ violation_if (s.enable_gpu && not p.allow_gpu) gpu_not_allowed
    ++ violation_if (s.rescue_helper_enabled && p.force_deny_rescue_helper) rescue_helper_denied
    ++ violation_if (s.rescue_helper_enabled && not p.allow_rescue_helper && not installing)
        rescue_helper_not_allowed

-- `legacyRemoteControlReview`: whether a historical restriction would be released.
unfoldable pub is_review : Policy → Revision → Bool
is_review p r =
    p.force_deny_remote_control
    && p.allow_remote_control
    && str_eq p.disable_source "legacy-unknown-preserve"
    && (settings_from_proto r.privileged).remote_control_enabled

unfoldable pub legacy_review : Policy → Revision → Policy × Bool
legacy_review p r =
    if is_review p r then (record p { force_deny_remote_control = false }, true) else (p, false)

-- The privilege mode of the user that systemd runs the service as: 1 for root, 2 for another.
abbrev pub current_mode : String → ℕ
current_mode user = if str_eq user "" || str_eq user "root" then 1 else 2

abbrev pub is_empty {ℓ} : {A : Type ℓ} → List A → Bool
is_empty [] = true
is_empty (_ ∷ _) = false

-- The helper actions are the difference of what is installed and what is desired.
abbrev pub has_helper_mismatch : Policy → Settings → List ℕ → Bool
has_helper_mismatch p s actions =
    not (bool_eq (has_action 2 actions) (s.rescue_helper_enabled && not p.helper_installed))
    || not (bool_eq (has_action 3 actions) (not s.rescue_helper_enabled && p.helper_installed))

unfoldable pub check_actions : Policy → Trust → Settings → Authorization → String → Done
check_actions p t s a user = do
  reject_if (not (a.target_privilege_mode == 1) && not (a.target_privilege_mode == 2))
      unsupported_mode
  reject_if (not (current_mode user == p.privilege_mode)) other_user
  reject_if
      (not (bool_eq (has_action 1 a.actions) (not (current_mode user == a.target_privilege_mode))))
      identity_action_mismatch
  reject_if (not (is_empty (local_ceiling_violations p s (has_action 2 a.actions))))
      exceeds_ceilings
  reject_if (has_action 2 a.actions && length t.release_keys == 0) no_release_key
  reject_if (has_helper_mismatch p s a.actions) helper_action_mismatch
  reject_if (length a.actions == 0) no_actions
  reject_if (str_eq t.service_user "root") no_service_user

-- `validateActions`, where `user` is the user that was observed. The caller verified that there is an
-- authorization.
unfoldable pub validate_actions : Policy → Trust → Revision → Authorization → String → Done
validate_actions p t r a user = check_actions p t (settings_from_proto r.privileged) a user

-- The policy that a transaction writes, for consent to the release of a historical restriction or not.
unfoldable pub reviewed_policy : Bool → Policy → Revision → Result HostError Policy
reviewed_policy false p r = ok p
reviewed_policy true p r =
    if is_review p r
    then ok (record p {
      force_deny_remote_control = false;
      disable_source = "legacy-remote-control-reauthorized";
    })
    else err restriction_changed

unfoldable pub applied_policy : ℕ → Settings → List ℕ → Policy → Policy
applied_policy revision s actions p = record p {
  privilege_mode = s.required_privilege_mode;
  host_revision = revision;
  host_settings = some s;
  allow_rescue_helper = p.allow_rescue_helper || has_action 2 actions;
  helper_installed = s.rescue_helper_enabled;
  helper_authorized = s.rescue_helper_enabled;
}

unfoldable pub next_policy : Bool → Policy → Revision → Authorization → Result HostError Policy
next_policy consent p r a = do
  q ← reviewed_policy consent p r
  ok (applied_policy r.revision (settings_from_proto r.privileged) a.actions q)

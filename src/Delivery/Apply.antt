-- ===== src/Delivery/Apply.antt =====
-- `recordPrivilegedRevision` and `failPrivileged` (clientcore/privileged_apply.go).
use komari_agent.Shared.{
  Bool, true, false, not, ◌&&◌, ◌||◌, Option, none, some, String, str_eq, ◌==◌, ltb, leb,
  if◌then◌else◌, is_some,
}
use komari_agent.Shared.Results.{Result, ok, err, ◌>>◌, reject_if}
use komari_agent.Privileged.Model.{Settings, settings_from_proto, Receipt, Revision, HostOperation}
use komari_agent.Privileged.Approval.{is_awaiting, is_applying, validate_approval}
use komari_agent.Privileged.Commit.{World}
use komari_agent.Privileged.Commit.{Outcome as StoreOutcome}
use komari_agent.Privileged.Operations.{
  record_pending, enqueue, apply_approved, apply_host_approved,
}
use komari_agent.RuntimeConfig.Effective.{policy_allows}
use komari_agent.Delivery.Receipts.{
  DeliveryError, unencodable, stale_sequence, unreachable, approval_changed, no_manifest, no_policy,
  no_operation, refused_remote_control, exceeds_policy, helper_not_ready, store_failed, Outcome,
  flush,
}
use komari_agent.Delivery.Baseline.{
  Notice, Station, Surroundings, Done, verify_v2, then_flush, after_check, accept_baseline,
}

abbrev pub fail_with : DeliveryError → Outcome → Outcome
fail_with cause (err e, w) = (err e, w)
fail_with cause (ok _, w) = (err cause, w)

-- `failPrivileged`: the failure is reported by a receipt, and the cause returned.
unfoldable pub fail_privileged : Surroundings → DeliveryError → Option Receipt → World → Outcome
fail_privileged x cause none w = (err unencodable, w)
fail_privileged x cause (some receipt) w =
    fail_with cause (then_flush x (enqueue x.fail_call receipt w))

-- The tests on settings that were approved, under the policy of the installation.
unfoldable pub check_settings : Station → Surroundings → Settings → Done
check_settings st x s = do
  reject_if (st.disable_remote_control && s.remote_control_enabled) refused_remote_control
  reject_if (not (policy_allows s x.policy)) exceeds_policy

unfoldable pub apply_with :
    Surroundings → Revision → Option HostOperation → Option Receipt → World → Outcome
apply_with x r op none w = (err unencodable, w)
apply_with x r none (some receipt) w =
    then_flush x (apply_approved x.apply_call r x.actual receipt w)
apply_with x r (some op) (some receipt) w =
    then_flush x (apply_host_approved x.apply_call r op x.actual receipt w)

abbrev pub or_fail : Surroundings → Done → World → Outcome → Outcome
or_fail x (err cause) w next = fail_privileged x cause x.failed w
or_fail x (ok _) w next = next

unfoldable pub grant : Station → Surroundings → Revision → Option HostOperation → World → Outcome
grant st x r op w =
    let s = settings_from_proto r.privileged in
    or_fail x (check_settings st x s) w (
      if s.rescue_helper_enabled && not x.helper_ready
      then (err helper_not_ready, w)
      else apply_with x r op x.delivered w)

abbrev pub approval_of : Station → Surroundings → String → Revision → Done
approval_of st x service r =
    elim (validate_approval st.messages.sha256_hex r st.agent_id service x.actual x.now) [
      | err e ↦ err (store_failed e)
      | ok _ ↦ ok tt
    ]

unfoldable pub grant_operation :
    Station → Surroundings → Revision → Option HostOperation → World → Outcome
grant_operation st x r none w = (err no_operation, w)
grant_operation st x r (some op) w = grant st x r (some op) w

-- An approval of the host needs its operation, that of the daemon its own checks.
unfoldable pub authorize : Station → Surroundings → String → Revision → World → Outcome
authorize st x service r w =
    if is_applying r.state
    then grant_operation st x r x.operation w
    else or_fail x (approval_of st x service r) w (grant st x r none w)

unfoldable pub has_changed : Station → Revision → Revision → Bool
has_changed st r current =
    not (current.revision == r.revision)
    || not (str_eq current.config_hash r.config_hash)
    || not (current.approval_generation == r.approval_generation)
    || not (
        is_awaiting current.state && is_awaiting r.state
        || is_applying current.state && is_applying r.state)
    || ltb current.update_sequence r.update_sequence
    || not (st.messages.same_authorization current.authorization r.authorization)

unfoldable pub installed : Station → Surroundings → Option String → Revision → World → Outcome
installed st x none r w = fail_privileged x no_manifest x.failed w
installed st x (some service) r w =
    if is_some x.policy then authorize st x service r w else fail_privileged x no_policy x.failed w

-- The online read before anything is granted.
unfoldable pub confirm : Station → Surroundings → Revision → Option Notice → World → Outcome
confirm st x r none w = (err unreachable, w)
confirm st x r (some current) w = after_check (verify_v2 st x current.signed) w (
    if has_changed st r current.signed.revision
    then (err approval_changed, w)
    else installed st x st.service current.signed.revision w)

-- Only an approval that awaits the daemon, or that the host applies, goes on.
unfoldable pub proceed : Station → Surroundings → Revision → StoreOutcome → Outcome
proceed st x r (err e, w) = (err (store_failed e), w)
proceed st x r (ok _, w) =
    if not (is_awaiting r.state) && not (is_applying r.state)
    then flush x.post w
    else confirm st x r x.current w

-- The receipt says only that the revision was received.
unfoldable pub acknowledge :
    Surroundings → Bool → Option Receipt → World → Result DeliveryError StoreOutcome
acknowledge x true receipt w = ok (ok tt, w)
acknowledge x false none w = err unencodable
acknowledge x false (some receipt) w = ok (enqueue x.receipt_call receipt w)

abbrev pub acknowledged :
    Station → Surroundings → Revision → World → Result DeliveryError StoreOutcome → Outcome
acknowledged st x r w (err e) = (err e, w)
acknowledged st x r w (ok o) = proceed st x r o

abbrev pub pended : Station → Surroundings → Notice → StoreOutcome → Outcome
pended st x n (err e, w) = (err (store_failed e), w)
pended st x n (ok _, w) =
    acknowledged st x n.signed.revision w (acknowledge x n.is_received x.received w)

unfoldable pub handle : Station → Surroundings → Notice → World → Outcome
handle st x n w =
    let r = n.signed.revision in
    if r.installation_baseline
    then accept_baseline st x n.signed w
    else if leb r.revision w.store.state.applied_revision
    then flush x.post w
    else if ltb r.update_sequence w.store.state.last_sequence
    then (err stale_sequence, w)
    else pended st x n (record_pending x.pend_call r w)

-- `recordPrivilegedRevision`
unfoldable pub record_privileged : Station → Surroundings → Notice → World → Outcome
record_privileged st x n w = after_check (verify_v2 st x n.signed) w (handle st x n w)

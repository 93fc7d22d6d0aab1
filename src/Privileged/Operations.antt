-- ===== src/Privileged/Operations.antt =====
-- The methods of `Store` in core/privileged that change the state. Each computes the next state or
-- an error from the current one (`prepare_…`) and hands it to `commit`.
use komari_agent.Shared.{
  ℕ, ◌-◌, Bool, false, not, ◌&&◌, ◌||◌, Option, none, some, List, [], ◌∷◌, ◌++◌, String, str_eq,
  ◌==◌, leb, ltb, if◌then◌else◌, length, drop, is_some,
}
use komari_agent.Shared.Results.{Result, ok, err, ◌>>◌, reject_if}
use komari_agent.Privileged.Model.{
  Settings, settings_eq, settings_from_proto, hash, Receipt, State, clear_pending, subset,
  ManualTask, Plan, Authorization, Revision, HostOperation,
}
use komari_agent.Privileged.Approval.{
  Error, missing_revision, not_newer, stale_pending, unsigned_promotion, no_previous,
  rollback_widens, invalid_baseline, baseline_exceeds, baseline_actions, baseline_history,
  baseline_conflict, outbox_full, marshal_failed, operation_mismatch, stale_approval, is_applying,
  is_empty, validate_approval,
}
use komari_agent.Privileged.Commit.{Codec, World, Outcome, Call, commit_result}

-- `GetAuthorization().GetServiceId()`
abbrev pub service_id : Option Authorization → String
service_id none = ""
service_id (some a) = a.service_id

-- The fields that a delivered plan sets.
unfoldable pub with_task : Option ManualTask → State → State
with_task none s = s
with_task (some t) s = record s {
  pending_task_id = t.task_id;
  pending_nonce = t.nonce;
  pending_expiry = elim t.expires_at [
    | none ↦ s.pending_expiry
    | some expiry ↦ if expiry.is_valid then expiry.as_time else s.pending_expiry
  ];
}

unfoldable pub with_plan : Option Plan → State → State
unfolding with_task
with_plan none s = s
with_plan (some p) s =
    with_task p.manual_task
      (record s { pending_class = p.upgrade_class; pending_reasons = p.reasons })

unfoldable pub prepare_pending : Revision → State → Result Error State
unfolding with_plan settings_from_proto
prepare_pending r s = do
  reject_if (not (is_some r.privileged)) missing_revision
  reject_if (leb r.revision s.applied_revision) not_newer
  reject_if (ltb r.revision s.pending_revision || ltb r.update_sequence s.last_sequence)
      stale_pending
  ok (
      with_plan r.plan (record s {
        pending_revision = r.revision;
        last_sequence = r.update_sequence;
        pending = some (settings_from_proto r.privileged);
        pending_reasons = [];
        pending_task_id = "";
        pending_nonce = "";
        pending_expiry = 0;
        pending_class = 0;
      }))

unfoldable pub record_pending : Call → Revision → World → Outcome
unfolding prepare_pending commit_result
record_pending c r w = commit_result c (prepare_pending r w.store.state) w

-- `Promote` is retired: it returns the active settings beside its error, and changes nothing.
unfoldable pub promote : World → Outcome
promote w = (err unsigned_promotion, w)

unfoldable pub prepare_rollback : State → Result Error State
unfolding subset
prepare_rollback s = elim s.previous [
  | none ↦ err no_previous
  | some restored ↦
      if not (subset restored s.active)
      then err rollback_widens
      else ok (record s {
        active = restored;
        applied_revision = s.previous_revision;
        active_signed_revision = "";
        previous = none;
        previous_revision = 0;
      })
]

unfoldable pub rollback : Call → World → Outcome
unfolding prepare_rollback commit_result
rollback c w = commit_result c (prepare_rollback w.store.state) w

-- Nothing is written where nothing is pending.
unfoldable pub discard_pending : Call → World → Outcome
unfolding clear_pending commit_result
discard_pending c w = elim w.store.state.pending [
  | none ↦ (ok tt, w)
  | some _ ↦ commit_result c (ok (clear_pending w.store.state)) w
]

abbrev pub outbox_capacity : ℕ
outbox_capacity = 1024

-- The revision is encoded, and the state that is built from its bytes follows.
unfoldable pub encoded : Codec → Revision → (String → State) → Result Error State
encoded codec r next = elim (codec.marshal r) [
  | none ↦ err marshal_failed
  | some bytes ↦ ok (next bytes)
]

-- The authorization of a baseline names a service and no host action.
abbrev pub is_baseline_authorization : Option Authorization → Bool
is_baseline_authorization none = false
is_baseline_authorization (some a) = is_empty a.actions && not (str_eq a.service_id "")

-- The guards of `AdoptBaseline`, in their order: the revision is the initial baseline,
unfoldable pub is_initial : Revision → Bool
is_initial r =
    r.installation_baseline
    && r.revision == 1
    && r.protocol_version == 2
    && r.approval_generation == 1

-- it asks for no more than the installation authorized under the actual identity,
unfoldable pub is_authorized : (List ℕ → String) → Revision → Settings → ℕ → Bool
unfolding settings_eq settings_from_proto
is_authorized sha256_hex r local actual =
    local.required_privilege_mode == actual
    && not local.rescue_helper_enabled
    && settings_eq (settings_from_proto r.privileged) local
    && str_eq r.config_hash (hash sha256_hex local)

-- and it replaces no history, nor other settings of revision 1.
unfoldable pub has_history : State → Bool
has_history s = ltb 1 s.applied_revision || ltb 1 s.pending_revision

unfoldable pub has_conflict : Settings → State → Bool
unfolding settings_eq
has_conflict local s = s.applied_revision == 1 && not (settings_eq s.active local)

unfoldable pub prepare_baseline :
    Codec → Revision → Settings → ℕ → Receipt → State → Result Error State
prepare_baseline codec r local actual receipt s = do
  reject_if (not (is_initial r)) invalid_baseline
  reject_if (not (is_authorized codec.sha256_hex r local actual)) baseline_exceeds
  reject_if (not (is_baseline_authorization r.authorization)) baseline_actions
  reject_if (has_history s) baseline_history
  reject_if (has_conflict local s) baseline_conflict
  reject_if (leb outbox_capacity (length s.outbox)) outbox_full
  encoded codec r λ bytes. clear_pending (record s {
    active = local;
    applied_revision = 1;
    active_signed_revision = bytes;
    outbox = s.outbox ++ (receipt ∷ []);
  })

unfoldable pub adopt_baseline : Call → Revision → Settings → ℕ → Receipt → World → Outcome
unfolding prepare_baseline commit_result
adopt_baseline c r local actual receipt w =
    commit_result c (prepare_baseline c.codec r local actual receipt w.store.state) w

unfoldable pub has_receipt : String → List Receipt → Bool
has_receipt id [] = false
has_receipt id (r ∷ rs) = str_eq r.id id || has_receipt id rs

-- A receipt whose ID is queued already is not queued again, and nothing is written.
unfoldable pub enqueue : Call → Receipt → World → Outcome
unfolding has_receipt commit_result
enqueue c receipt w =
    let s = w.store.state in
    if leb outbox_capacity (length s.outbox)
    then commit_result c (err outbox_full) w
    else if has_receipt receipt.id s.outbox
    then (ok tt, w)
    else commit_result c (ok (record s { outbox = s.outbox ++ (receipt ∷ []) })) w

-- The receipts with another ID, which stay in the outbox.
unfoldable pub unfinished : String → List Receipt → List Receipt
unfinished id [] = []
unfinished id (r ∷ rs) = if str_eq r.id id then unfinished id rs else r ∷ unfinished id rs

-- The receipts with this ID, marked with the rejection. `mark` puts the time before the reason.
unfoldable pub finished : (String → String) → String → String → List Receipt → List Receipt
finished mark id rejected [] = []
finished mark id rejected (r ∷ rs) =
    if str_eq r.id id
    then record r { rejected = mark rejected } ∷ finished mark id rejected rs
    else finished mark id rejected rs

abbrev pub rejected_capacity : ℕ
rejected_capacity = 128

-- The last 128 entries.
unfoldable pub truncate_rejected : List Receipt → List Receipt
truncate_rejected rs =
    if ltb rejected_capacity (length rs) then drop (length rs - rejected_capacity) rs else rs

unfoldable pub finish_state : (String → String) → String → String → State → State
unfolding unfinished finished truncate_rejected
finish_state mark id rejected s = record s {
  outbox = unfinished id s.outbox;
  rejected_receipts = truncate_rejected (
      if str_eq rejected ""
      then s.rejected_receipts
      else s.rejected_receipts ++ finished mark id rejected s.outbox);
}

-- `mark` formats the clock's time before the reason.
unfoldable pub finish_receipt : Call → (String → String) → String → String → World → Outcome
unfolding finish_state commit_result
finish_receipt c mark id rejected w =
    commit_result c (ok (finish_state mark id rejected w.store.state)) w

unfoldable pub prepare_approved : Codec → Revision → Receipt → State → Result Error State
unfolding encoded clear_pending settings_from_proto
prepare_approved codec r receipt s = do
  reject_if
      (leb r.revision s.applied_revision
        || ltb r.revision s.pending_revision
        || ltb r.update_sequence s.last_sequence)
      stale_approval
  reject_if (leb outbox_capacity (length s.outbox)) outbox_full
  encoded codec r λ bytes. clear_pending (record s {
    previous = some s.active;
    previous_revision = s.applied_revision;
    active = settings_from_proto r.privileged;
    applied_revision = r.revision;
    active_signed_revision = bytes;
    last_sequence = r.update_sequence;
    outbox = s.outbox ++ (receipt ∷ []);
  })

unfoldable pub commit_approved : Call → Revision → Receipt → World → Outcome
unfolding prepare_approved commit_result
commit_approved c r receipt w = commit_result c (prepare_approved c.codec r receipt w.store.state) w

unfoldable pub apply_approved : Call → Revision → ℕ → Receipt → World → Outcome
unfolding validate_approval commit_approved
apply_approved c r actual receipt w =
    elim (validate_approval c.codec.sha256_hex r r.agent_id (service_id r.authorization) actual
      c.now) [ err e ↦ (err e, w) | ok _ ↦ commit_approved c r receipt w ]

-- `HOST_OPERATION_PHASE_LOCAL_APPLIED`
abbrev pub local_applied : ℕ
local_applied = 3

-- The guard of `ApplyHostApproved`.
unfoldable pub matches_operation : Codec → Revision → HostOperation → ℕ → Bool
unfolding settings_from_proto hash
matches_operation codec r op actual =
    is_applying r.state
    && r.protocol_version == 2
    && op.phase == local_applied
    && not (str_eq op.operation_id "")
    && codec.same_authorization r.authorization op.authorization
    && (settings_from_proto r.privileged).required_privilege_mode == actual
    && str_eq r.config_hash (hash codec.sha256_hex (settings_from_proto r.privileged))

unfoldable pub apply_host_approved : Call → Revision → HostOperation → ℕ → Receipt → World → Outcome
unfolding matches_operation commit_approved
apply_host_approved c r op actual receipt w =
    if matches_operation c.codec r op actual
    then commit_approved c r receipt w
    else (err operation_mismatch, w)

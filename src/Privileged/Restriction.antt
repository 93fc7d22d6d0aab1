-- ===== src/Privileged/Restriction.antt =====
-- Nothing widens the settings in force but a signed approval (core/privileged).
use komari_agent.Shared.{
  ℕ, ◌≡◌, refl, ◌⊎◌, inl, inr, true, ◌&&◌, Option, some, [], ◌∷◌, ◌++◌, String, arith, Bool-cases,
  Option-cases,
}
use komari_agent.Shared.Results.{Result, ok, Result-cases}
use komari_agent.Privileged.Model.{
  Settings, settings_from_proto, Receipt, State, clear_pending, subset, restrict, effective,
  Revision, Plan, HostOperation,
}
use komari_agent.Privileged.Approval.{Error, validate_approval}
use komari_agent.Privileged.Commit.{Codec, World, Call, commit_result}
use komari_agent.Privileged.Durability.{commit_result_keeps}
use komari_agent.Privileged.Operations.{
  service_id, with_plan, prepare_pending, record_pending, promote, prepare_rollback, rollback,
  discard_pending, encoded, prepare_baseline, adopt_baseline, enqueue, finish_state, finish_receipt,
  prepare_approved, commit_approved, apply_approved, matches_operation, apply_host_approved,
}
use komari_agent.Privileged.Approvals.{
  IsApproved, IsFresh, validate_approval-eq_ok, prepare_approved-eq_ok,
}
use komari_agent.Privileged.Guards.{
  IsOperated, matches_operation-IsOperated, IsBaseline, prepare_baseline-IsBaseline,
}
use komari_agent.Privileged.Methods.{
  Method, pend, promotion, roll_back, discard, baseline, queue, finish, approve, host_approve,
  perform,
}

pub subset_refl : (a : Settings) → subset a a ≡ true
unfolding subset
subset_refl a = ground arith

pub subset_trans : (a b c : Settings) → subset a b ≡ true → subset b c ≡ true → subset a c ≡ true
unfolding subset
subset_trans a b c h k = ground arith

pub restrict-subset : (a p : Settings) → subset (restrict a p) a ≡ true
unfolding subset restrict
restrict-subset a p = ground arith

-- A plan sets only what describes the pending revision.
abbrev SameTrack : State → State → Type 0
SameTrack a b =
    (a.active ≡ b.active) × (a.applied_revision ≡ b.applied_revision) × (a.pending ≡ b.pending)

with_plan-SameTrack : (p : Option Plan) (s : State) → SameTrack (with_plan p s) s
unfolding with_plan
with_plan-SameTrack p s = ground arith

pub prepare_pending-SameTrack :
    (r : Revision) (s : State) {next : State}
    → prepare_pending r s ≡ ok next
    → SameTrack next (record s { pending = some (settings_from_proto r.privileged) })
unfolding prepare_pending
prepare_pending-SameTrack r s h = ground (
  arith,
  with_plan-SameTrack r.plan (record s {
    pending_revision = r.revision;
    last_sequence = r.update_sequence;
    pending = some (settings_from_proto r.privileged);
    pending_reasons = [];
    pending_task_id = "";
    pending_nonce = "";
    pending_expiry = 0;
    pending_class = 0;
  }),
)

prepare_rollback-subset :
    (s : State) {next : State} → prepare_rollback s ≡ ok next → subset next.active s.active ≡ true
unfolding prepare_rollback
prepare_rollback-subset s h = ground arith

encoded-eq_ok :
    (codec : Codec) (r : Revision) (f : String → State) {next : State}
    → encoded codec r f ≡ ok next
    → (bytes : String) × (codec.marshal r ≡ some bytes) × (next ≡ f bytes)
unfolding encoded
encoded-eq_ok codec r f h = ground arith

-- What a granting method must have established of the state before it for the settings `s` to be in
-- force after it.
abbrev pub Grants : Call → Method → State → Settings → Type 0
Grants c (approve r actual receipt) before s =
    IsApproved c.codec.sha256_hex r r.agent_id (service_id r.authorization) actual c.now
    × IsFresh r before
    × (s ≡ settings_from_proto r.privileged)
Grants c (host_approve r op actual receipt) before s =
    IsOperated c.codec r op actual × IsFresh r before × (s ≡ settings_from_proto r.privileged)
Grants c (baseline r local actual receipt) before s =
    IsBaseline c.codec r local actual before × (s ≡ local)
Grants c _ before s = ⊥

-- The settings in force after a method: none are added, or the method granted exactly these.
abbrev Justified : Call → Method → State → Settings → Type 0
Justified c m before s = (subset s before.active ≡ true) ⊎ Grants c m before s

subset_of_eq : (a b : Settings) → a ≡ b → subset a b ≡ true
subset_of_eq a b e = rw e (subset_refl b)

commit_approved-Justified :
    (c : Call) (r : Revision) (receipt : Receipt) (w : World)
    → let a = (commit_approved c r receipt w).1.store.state.active in
      (subset a w.store.state.active ≡ true)
      ⊎ (IsFresh r w.store.state × (a ≡ settings_from_proto r.privileged))
unfolding commit_approved
commit_approved-Justified c r receipt w =
    commit_result_keeps
      (λ s.
        (subset s.active w.store.state.active ≡ true)
        ⊎ (IsFresh r w.store.state × (s.active ≡ settings_from_proto r.privileged)))
      (λ s t h. h) c (prepare_approved c.codec r receipt w.store.state) w
      (λ next e. let f = prepare_approved-eq_ok c.codec r receipt w.store.state e in inr (f.0, f.2))
      (inl (subset_refl w.store.state.active))

-- A method that prepares a state which adds nothing leaves nothing added.
keeps_subset :
    (c : Call) (r : Result Error State) (w : World)
    → ((next : State) → r ≡ ok next → subset next.active w.store.state.active ≡ true)
    → subset (commit_result c r w).1.store.state.active w.store.state.active ≡ true
keeps_subset c r w h =
    commit_result_keeps (λ s. subset s.active w.store.state.active ≡ true) (λ s t k. k) c r w h
      (subset_refl w.store.state.active)

discard_pending-subset :
    (c : Call) (w : World)
    → subset (discard_pending c w).1.store.state.active w.store.state.active ≡ true
unfolding discard_pending clear_pending
discard_pending-subset c w = elim (Option-cases w.store.state.pending) [
  | inl e ↦ rw (e, discard_pending) (subset_refl w.store.state.active)
  | inr (p, e) ↦
      rw (e, discard_pending)
        (keeps_subset c (ok (clear_pending w.store.state)) w
          λ next k. subset_of_eq _ _ (ground arith))
]

enqueue-subset :
    (c : Call) (receipt : Receipt) (w : World)
    → subset (enqueue c receipt w).1.store.state.active w.store.state.active ≡ true
unfolding enqueue
enqueue-subset c receipt w = ground (
  arith,
  subset_refl w.store.state.active,
  keeps_subset c (ok (record (w.store.state) { outbox = w.store.state.outbox ++ (receipt ∷ []) })) w
      λ next k. subset_of_eq next.active w.store.state.active (ground arith),
)

apply_approved-Justified :
    (c : Call) (r : Revision) (actual : ℕ) (receipt : Receipt) (w : World)
    → Justified c
        (approve r actual receipt)
        w.store.state
        (apply_approved c r actual receipt w).1.store.state.active
unfolding apply_approved
apply_approved-Justified c r actual receipt w =
    elim (Result-cases (
      validate_approval c.codec.sha256_hex r r.agent_id (service_id r.authorization) actual
        c.now)) [
          | inl (_, e) ↦
              rw (e, apply_approved)
                (elim (commit_approved-Justified c r receipt w) [
                  | inl h ↦ inl h
                  | inr h ↦ inr (
                    validate_approval-eq_ok c.codec.sha256_hex r r.agent_id
                        (service_id r.authorization) actual c.now e,
                    h.0,
                    h.1,
                  )
                ])
          | inr (x, e) ↦ rw (e, apply_approved) (inl (subset_refl w.store.state.active))
        ]

apply_host_approved-Justified :
    (c : Call) (r : Revision) (op : HostOperation) (actual : ℕ) (receipt : Receipt) (w : World)
    → Justified c
        (host_approve r op actual receipt)
        w.store.state
        (apply_host_approved c r op actual receipt w).1.store.state.active
unfolding apply_host_approved
apply_host_approved-Justified c r op actual receipt w =
    elim (Bool-cases (matches_operation c.codec r op actual)) [
      | inl e ↦
          rw (e, apply_host_approved)
            (elim (commit_approved-Justified c r receipt w) [
              | inl h ↦ inl h
              | inr h ↦ inr (matches_operation-IsOperated c.codec r op actual e, h.0, h.1)
            ])
      | inr e ↦ rw (e, apply_host_approved) (inl (subset_refl w.store.state.active))
    ]

-- No method of the store, under any faults, puts a capability or another identity in force unless
-- all the guards of an approval, a host approval or a baseline held of its arguments and of the state
-- before; then exactly the settings of its revision (for a baseline, of the local installation) are in
-- force. An approval was signed, current, unexpired and bound to its revision; a host approval carries
-- an operation that was applied under the same authorization; both were newer than what was applied. A
-- baseline is the initial revision with exactly the local settings under the actual identity and
-- without a rescue helper, an authorization of no host action, and no history or conflict before it.
pub widening_is_justified :
    (c : Call) (m : Method) (w : World)
    → let after = (perform c m w).1.store.state.active in
      (subset after w.store.state.active ≡ true) ⊎ Grants c m w.store.state after
unfolding perform record_pending promote rollback discard_pending adopt_baseline enqueue
    finish_receipt apply_approved apply_host_approved finish_state clear_pending commit_result
widening_is_justified c (pend r) w =
    inl (
      keeps_subset c _ w λ next e. subset_of_eq _ _ (prepare_pending-SameTrack r w.store.state e).0)
widening_is_justified c promotion w = inl (subset_refl w.store.state.active)
widening_is_justified c roll_back w =
    inl (keeps_subset c _ w λ next e. prepare_rollback-subset w.store.state e)
widening_is_justified c discard w = inl (discard_pending-subset c w)
widening_is_justified c (baseline r local actual receipt) w =
    commit_result_keeps
      (λ s.
        (subset s.active w.store.state.active ≡ true)
        ⊎ Grants c (baseline r local actual receipt) w.store.state s.active)
      (λ s t h. h) c (prepare_baseline c.codec r local actual receipt w.store.state) w
      (λ next e. inr (prepare_baseline-IsBaseline c.codec r local actual receipt w.store.state e))
      (inl (subset_refl w.store.state.active))
widening_is_justified c (queue receipt) w = inl (enqueue-subset c receipt w)
widening_is_justified c (finish mark id rejected) w = inl (
    keeps_subset c (ok (finish_state mark id rejected w.store.state)) w
      λ next e. subset_of_eq next.active w.store.state.active (ground arith))
widening_is_justified c (approve r actual receipt) w = apply_approved-Justified c r actual receipt w
widening_is_justified c (host_approve r op actual receipt) w =
    apply_host_approved-Justified c r op actual receipt w

-- The settings that apply are those in force less what a pending revision withdraws: each
-- capability is granted exactly when the active and the pending settings both grant it, and the
-- identity is that of the active settings.
pub effective_intersects :
    (s : State) (p : Settings)
    → s.pending ≡ some p
    → (subset (effective s) s.active ≡ true)
      × ((effective s).remote_control_enabled
          ≡ (s.active.remote_control_enabled && p.remote_control_enabled))
      × ((effective s).web_ssh_enabled ≡ (s.active.web_ssh_enabled && p.web_ssh_enabled))
      × ((effective s).execution_enabled ≡ (s.active.execution_enabled && p.execution_enabled))
      × ((effective s).enable_gpu ≡ (s.active.enable_gpu && p.enable_gpu))
      × ((effective s).rescue_helper_enabled
          ≡ (s.active.rescue_helper_enabled && p.rescue_helper_enabled))
unfolding effective
effective_intersects s p e =
    rw (e, effective) (restrict-subset s.active p, refl, refl, refl, refl, refl)

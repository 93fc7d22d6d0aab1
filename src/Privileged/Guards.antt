-- ===== src/Privileged/Guards.antt =====
-- The guards of `AdoptBaseline` and `ApplyHostApproved`, written out (core/privileged/baseline.go,
-- core/privileged/approval.go).
use komari_agent.Shared.{
  ◌⊎◌, inl, inr, Bool-cases, ◌==◌, ℕ, ◌≤◌, ◌≡◌, ◌≢◌, none, false, refl, true, Option, some, List,
  [], String, arith, eq_iff,
}
use komari_agent.Shared.Results.{ok}
use komari_agent.Privileged.Model.{
  DeliveryState, applying, awaiting_agent, delivered, other_state, Settings, settings_from_proto,
  hash, Receipt, State, clear_pending, settings_eq, Authorization, Revision, HostOperation,
}
use komari_agent.Privileged.Approval.{is_applying}
use komari_agent.Privileged.Commit.{Codec}
use komari_agent.Privileged.Operations.{
  encoded, is_initial, is_baseline_authorization, has_history, has_conflict, is_authorized,
  prepare_baseline, matches_operation,
}

settings_eq-eq : (a b : Settings) → settings_eq a b ≡ true → a ≡ b
unfolding settings_eq
settings_eq-eq a b h = ground arith

-- The guards of `ApplyHostApproved`: the revision is being applied, and the operation was applied on
-- the host under the authorization of the revision, for this identity and these settings.
abbrev pub IsOperated : Codec → Revision → HostOperation → ℕ → Type 0
IsOperated codec r op actual =
    (r.state ≡ applying)
    × (r.protocol_version ≡ 2)
    × (op.phase ≡ 3)
    × (op.operation_id ≢ "")
    × (codec.same_authorization r.authorization op.authorization ≡ true)
    × ((settings_from_proto r.privileged).required_privilege_mode ≡ actual)
    × (r.config_hash ≡ hash codec.sha256_hex (settings_from_proto r.privileged))

is_applying-eq_true : (d : DeliveryState) → is_applying d ≡ true → d ≡ applying
is_applying-eq_true awaiting_agent h = cc
is_applying-eq_true applying h = refl
is_applying-eq_true delivered h = cc
is_applying-eq_true other_state h = cc

pub matches_operation-IsOperated :
    (codec : Codec) (r : Revision) (op : HostOperation) (actual : ℕ)
    → matches_operation codec r op actual ≡ true
    → IsOperated codec r op actual
unfolding matches_operation
matches_operation-IsOperated codec r op actual h = ground (
  arith,
  is_applying-eq_true r.state,
  eq_iff op.operation_id "",
  eq_iff r.config_hash (hash codec.sha256_hex (settings_from_proto r.privileged)),
)

-- The guards of `AdoptBaseline`: the revision is the initial baseline, its settings are the local ones
-- under the actual identity and without a rescue helper, its authorization names a service and no
-- host action, and it replaces no history, nor other settings of revision 1.
abbrev pub IsBaseline : Codec → Revision → Settings → ℕ → State → Type 0
IsBaseline codec r local actual before =
    (r.installation_baseline ≡ true)
    × (r.revision ≡ 1)
    × (r.protocol_version ≡ 2)
    × (r.approval_generation ≡ 1)
    × (local.required_privilege_mode ≡ actual)
    × (local.rescue_helper_enabled ≡ false)
    × (settings_from_proto r.privileged ≡ local)
    × (r.config_hash ≡ hash codec.sha256_hex local)
    × ((a : Authorization) × (r.authorization ≡ some a) × (a.actions ≡ []) × (a.service_id ≢ ""))
    × (before.pending_revision ≤ 1)
    × ((before.applied_revision ≡ 0) ⊎ ((before.applied_revision ≡ 1) × (before.active ≡ local)))

is_authorized-eq_true :
    (sha256_hex : List ℕ → String) (r : Revision) (local : Settings) (actual : ℕ)
    → is_authorized sha256_hex r local actual ≡ true
    → (local.required_privilege_mode ≡ actual)
      × (local.rescue_helper_enabled ≡ false)
      × (settings_from_proto r.privileged ≡ local)
      × (r.config_hash ≡ hash sha256_hex local)
unfolding is_authorized
is_authorized-eq_true sha256_hex r local actual h = (
  ground (arith, h),
  ground (arith, h),
  settings_eq-eq (settings_from_proto r.privileged) local (ground (arith, h)),
  (eq_iff r.config_hash (hash sha256_hex local)).0 (ground (arith, h)),
)

is_initial-eq_true :
    (r : Revision)
    → is_initial r ≡ true
    → (r.installation_baseline ≡ true)
      × (r.revision ≡ 1)
      × (r.protocol_version ≡ 2)
      × (r.approval_generation ≡ 1)
unfolding is_initial
is_initial-eq_true r h = ground arith

is_baseline_authorization-eq_true :
    (o : Option Authorization)
    → is_baseline_authorization o ≡ true
    → (a : Authorization) × (o ≡ some a) × (a.actions ≡ []) × (a.service_id ≢ "")
is_baseline_authorization-eq_true none h = cc
is_baseline_authorization-eq_true (some a) h =
    (a, refl, ground arith, ground (arith, eq_iff a.service_id ""))

no_history :
    (local : Settings) (s : State)
    → has_history s ≡ false
    → has_conflict local s ≡ false
    → (s.pending_revision ≤ 1)
      × ((s.applied_revision ≡ 0) ⊎ ((s.applied_revision ≡ 1) × (s.active ≡ local)))
unfolding has_history has_conflict
no_history local s h k = (
  ground (arith, h),
  elim (Bool-cases (s.applied_revision == 1)) [
    | inl one ↦ inr (ground arith, settings_eq-eq s.active local (ground (arith, k, one)))
    | inr other ↦ inl (ground (arith, h, other))
  ],
)

prepare_baseline-guards :
    (codec : Codec) (r : Revision) (local : Settings) (actual : ℕ) (receipt : Receipt) (s : State)
    {next : State}
    → prepare_baseline codec r local actual receipt s ≡ ok next
    → (is_initial r ≡ true)
      × (is_authorized codec.sha256_hex r local actual ≡ true)
      × (is_baseline_authorization r.authorization ≡ true)
      × (has_history s ≡ false)
      × (has_conflict local s ≡ false)
      × (next.active ≡ local)
unfolding prepare_baseline encoded clear_pending
prepare_baseline-guards codec r local actual receipt s h = ground arith

pub prepare_baseline-IsBaseline :
    (codec : Codec) (r : Revision) (local : Settings) (actual : ℕ) (receipt : Receipt) (s : State)
    {next : State}
    → prepare_baseline codec r local actual receipt s ≡ ok next
    → IsBaseline codec r local actual s × (next.active ≡ local)
prepare_baseline-IsBaseline codec r local actual receipt s h =
    let (first, second, third, fourth, fifth, after) =
      prepare_baseline-guards codec r local actual receipt s h in
    let (is_baseline, one, two, generation) = is_initial-eq_true r first in
    let (mode, helper, same, digest) =
      is_authorized-eq_true codec.sha256_hex r local actual second in
    let (pending, conflict) = no_history local s fourth fifth in
    (
      (
        is_baseline,
        one,
        two,
        generation,
        mode,
        helper,
        same,
        digest,
        is_baseline_authorization-eq_true r.authorization third,
        pending,
        conflict,
      ),
      after,
    )

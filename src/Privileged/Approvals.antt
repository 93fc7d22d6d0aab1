-- ===== src/Privileged/Approvals.antt =====
-- What a successful approval establishes, and that a stale one is refused (core/privileged/approval.go).
use komari_agent.Shared.{
  ℕ, ◌+◌, ◌≤◌, ◌<◌, ◌≡◌, ◌≢◌, refl, false, inl, inr, true, Option, none, some, List, [], ◌∷◌, ◌++◌,
  String, arith, eq_iff,
}
use komari_agent.Shared.Results.{Result, ok, err, Result-cases}
use komari_agent.Privileged.Model.{
  DeliveryState, awaiting_agent, applying, delivered, other_state, settings_from_proto, hash,
  Receipt, State, Timestamp, Authorization, Revision,
}
use komari_agent.Privileged.Approval.{
  is_awaiting, Error, stale_approval, is_current, is_bound, in_window, validate_authorization,
  validate_approval,
}
use komari_agent.Privileged.Commit.{Codec, World, Call, commit_result}
use komari_agent.Privileged.Durability.{commit_result-eq_ok}
use komari_agent.Privileged.Operations.{
  service_id, prepare_approved, commit_approved, apply_approved,
}

-- The authorization has no field that is not known, names this agent, service and identity, a nonce
-- and an approver, repeats the revision's number, hash and generation, and asks for no host action.
abbrev pub IsBoundTo : Revision → Authorization → String → String → ℕ → Type 0
IsBoundTo r a agent service actual =
    (a.agent_id ≡ agent)
    × (r.agent_id ≡ agent)
    × (a.service_id ≡ service)
    × (a.revision ≡ r.revision)
    × (a.config_hash ≡ r.config_hash)
    × (a.approval_generation ≡ r.approval_generation)
    × (a.actions ≡ [])
    × (a.target_privilege_mode ≡ actual)
    × ((settings_from_proto r.privileged).required_privilege_mode ≡ actual)
    × (a.unknown ≡ false)
    × (service ≢ "")
    × (a.nonce ≢ "")
    × (a.approved_by ≢ "")

is_bound-IsBoundTo :
    (r : Revision) (a : Authorization) (agent service : String) (actual : ℕ)
    → is_bound r a agent service actual ≡ true
    → IsBoundTo r a agent service actual
unfolding is_bound
is_bound-IsBoundTo r a agent service actual h = ground (
  arith,
  eq_iff a.agent_id agent,
  eq_iff r.agent_id agent,
  eq_iff a.service_id service,
  eq_iff a.config_hash r.config_hash,
  eq_iff service "",
  eq_iff a.nonce "",
  eq_iff a.approved_by "",
)

-- Both timestamps are valid; the time lies before the expiry, and not more than a minute before the
-- issue, which lies before the expiry.
abbrev pub IsWithin : ℕ → Authorization → Type 0
IsWithin now a =
    (issued : Timestamp) × (expires : Timestamp) × (a.issued_at ≡ some issued)
    × (a.expires_at ≡ some expires)
    × (issued.is_valid ≡ true)
    × (expires.is_valid ≡ true)
    × (issued.as_time ≤ now + 60000000000)
    × (now < expires.as_time)
    × (issued.as_time < expires.as_time)

pub in_window-IsWithin :
    (now : ℕ) (a : Authorization) → in_window now a.issued_at a.expires_at ≡ true → IsWithin now a
unfolding in_window
in_window-IsWithin now a h = ground arith

-- The revision is a signed one of version 2 that awaits the agent, and not the baseline.
abbrev pub IsCurrent : Revision → Type 0
IsCurrent r =
    (r.protocol_version ≡ 2)
    × (r.installation_baseline ≡ false)
    × (r.state ≡ awaiting_agent)
    × (r.revision ≢ 0)
    × (r.approval_generation ≢ 0)
    × (r.is_signed ≡ true)

is_awaiting-eq_true : (d : DeliveryState) → is_awaiting d ≡ true → d ≡ awaiting_agent
is_awaiting-eq_true awaiting_agent h = refl
is_awaiting-eq_true applying h = cc
is_awaiting-eq_true delivered h = cc
is_awaiting-eq_true other_state h = cc

is_current-IsCurrent : (r : Revision) → is_current r ≡ true → IsCurrent r
unfolding is_current
is_current-IsCurrent r h = ground (arith, is_awaiting-eq_true r.state)

-- What `ValidateApproval` establishes when it accepts a revision.
abbrev pub IsApproved : (List ℕ → String) → Revision → String → String → ℕ → ℕ → Type 0
IsApproved sha256_hex r agent service actual now =
    (a : Authorization) × (r.authorization ≡ some a)
    × IsCurrent r
    × IsBoundTo r a agent service actual
    × IsWithin now a
    × (r.config_hash ≡ hash sha256_hex (settings_from_proto r.privileged))

validate_authorization-eq_ok :
    (sha256_hex : List ℕ → String) (r : Revision) (a : Authorization) (agent service : String)
    (actual now : ℕ)
    → validate_authorization sha256_hex r a agent service actual now ≡ ok tt
    → (is_bound r a agent service actual ≡ true)
      × (in_window now a.issued_at a.expires_at ≡ true)
      × (r.config_hash ≡ hash sha256_hex (settings_from_proto r.privileged))
unfolding validate_authorization
validate_authorization-eq_ok sha256_hex r a agent service actual now h =
    ground (arith, eq_iff r.config_hash (hash sha256_hex (settings_from_proto r.privileged)))

pub validate_approval-eq_ok :
    (sha256_hex : List ℕ → String) (r : Revision) (agent service : String) (actual now : ℕ)
    → validate_approval sha256_hex r agent service actual now ≡ ok tt
    → IsApproved sha256_hex r agent service actual now
unfolding validate_approval
validate_approval-eq_ok sha256_hex r agent service actual now h =
    by_authorization r.authorization refl
  where
    by_authorization :
        (o : Option Authorization)
        → r.authorization ≡ o
        → IsApproved sha256_hex r agent service actual now
    by_authorization none e = cc (rw (e, validate_approval) at h)
    by_authorization (some a) e =
        let parts : (is_current r ≡ true)
            × (validate_authorization sha256_hex r a agent service actual now ≡ ok tt) =
          ground arith in
        let v = validate_authorization-eq_ok sha256_hex r a agent service actual now parts.1 in
        (
          a,
          e,
          is_current-IsCurrent r parts.0,
          is_bound-IsBoundTo r a agent service actual v.0,
          in_window-IsWithin now a v.1,
          v.2,
        )

-- The revision is newer than what was applied, not older than what was pending, and it was not
-- delivered before what was delivered last.
abbrev pub IsFresh : Revision → State → Type 0
IsFresh r s =
    (s.applied_revision < r.revision)
    × (s.pending_revision ≤ r.revision)
    × (s.last_sequence ≤ r.update_sequence)

pub prepare_approved-eq_ok :
    (codec : Codec) (r : Revision) (receipt : Receipt) (s : State) {next : State}
    → prepare_approved codec r receipt s ≡ ok next
    → IsFresh r s
      × (next.applied_revision ≡ r.revision)
      × (next.active ≡ settings_from_proto r.privileged)
      × (next.previous ≡ some s.active)
      × (next.previous_revision ≡ s.applied_revision)
      × (next.pending ≡ none)
      × (next.outbox ≡ s.outbox ++ (receipt ∷ []))
unfolding prepare_approved
prepare_approved-eq_ok codec r receipt s h = ground arith

-- What a successful `ApplyApproved` has checked and done.
abbrev pub Applied : Call → Revision → ℕ → Receipt → World → Type 0
Applied c r actual receipt w =
    let s = w.store.state in
    let s' = (apply_approved c r actual receipt w).1.store.state in
    IsApproved c.codec.sha256_hex r r.agent_id (service_id r.authorization) actual c.now
    × IsFresh r s
    × (s'.applied_revision ≡ r.revision)
    × (s'.active ≡ settings_from_proto r.privileged)
    × (s'.previous ≡ some s.active)
    × (s'.previous_revision ≡ s.applied_revision)
    × (s'.pending ≡ none)
    × (s'.outbox ≡ s.outbox ++ (receipt ∷ []))

-- An approval that succeeds is of a signed revision of version 2 that awaits the agent and is not the
-- baseline; its authorization is unexpired, names the agent, number, generation and hash of its own
-- revision (the hash being that of its settings), the actual identity, a service, a nonce and an
-- approver, and asks for no host action; the revision was newer than what was applied, not older than
-- what was pending, and not delivered before what was delivered last; and it put the settings of the
-- revision in force, kept the old ones for a rollback, cleared the pending revision and queued the
-- receipt.
pub apply_approved_lem :
    (c : Call) (r : Revision) (actual : ℕ) (receipt : Receipt) (w : World)
    → (apply_approved c r actual receipt w).0 ≡ ok tt
    → Applied c r actual receipt w
unfolding apply_approved commit_approved
apply_approved_lem c r actual receipt w h =
    by_validation
      (validate_approval c.codec.sha256_hex r r.agent_id (service_id r.authorization) actual c.now)
      refl
  where
    by_validation :
        (v : Result Error (Unit {0}))
        → validate_approval c.codec.sha256_hex r r.agent_id
            (service_id r.authorization)
            actual
            c.now
          ≡ v
        → Applied c r actual receipt w
    by_validation (err e) p = cc (rw (p, apply_approved) at h)
    by_validation (ok _) p =
        let (next, e, stored, _) =
          commit_result-eq_ok c (prepare_approved c.codec r receipt w.store.state) w
            (rw (p, apply_approved) at h) in
        let f = prepare_approved-eq_ok c.codec r receipt w.store.state e in
        (
          validate_approval-eq_ok c.codec.sha256_hex r r.agent_id (service_id r.authorization)
              actual c.now p,
          f.0,
          rw (p, apply_approved) (rw stored f.1),
          rw (p, apply_approved) (rw stored f.2),
          rw (p, apply_approved) (rw stored f.3),
          rw (p, apply_approved) (rw stored f.4),
          rw (p, apply_approved) (rw stored f.5),
          rw (p, apply_approved) (rw stored f.6),
        )

prepare_approved_stale :
    (codec : Codec) (r : Revision) (receipt : Receipt) (s : State)
    → r.revision ≤ s.applied_revision
    → prepare_approved codec r receipt s ≡ err stale_approval
unfolding prepare_approved
prepare_approved_stale codec r receipt s h = ground arith

pub apply_approved_stale :
    (c : Call) (r : Revision) (actual : ℕ) (receipt : Receipt) (w : World)
    → r.revision ≤ w.store.state.applied_revision
    → (e : Error) × (apply_approved c r actual receipt w ≡ (err e, w))
unfolding apply_approved commit_approved commit_result
apply_approved_stale c r actual receipt w old =
    elim (Result-cases (
      validate_approval c.codec.sha256_hex r r.agent_id (service_id r.authorization) actual
        c.now)) [
          | inl (_, p) ↦ (
            stale_approval,
            rw (p, apply_approved)
                (rw (prepare_approved_stale c.codec r receipt w.store.state old)),
          )
          | inr (e, p) ↦ (e, rw (p, apply_approved))
        ]

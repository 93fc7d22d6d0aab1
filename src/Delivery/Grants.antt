-- ===== src/Delivery/Grants.antt =====
-- When the settings in force change while the daemon handles a revision
-- (clientcore/privileged_apply.go, clientcore/baseline.go).
use komari_agent.Shared.{
  ℕ, ◌≡◌, inl, inr, Bool-cases, List, [], ◌∷◌, arith, String, leb, length, sym, subst,
}
use komari_agent.Shared.Results.{Result, ok, err, Result-cases, ok-injective}
use komari_agent.Privileged.Model.{
  Settings, State, settings_from_proto, Receipt, Revision, HostOperation, clear_pending,
}
use komari_agent.Privileged.Approval.{Error, validate_approval}
use komari_agent.Privileged.Commit.{Codec, World, Call, commit_result}
use komari_agent.Privileged.Durability.{commit_result_keeps}
use komari_agent.Privileged.Restriction.{prepare_pending-SameTrack}
use komari_agent.Privileged.Operations.{
  prepare_pending, record_pending, prepare_baseline, adopt_baseline, encoded, has_receipt,
  outbox_capacity, enqueue, finish_state, finish_receipt, prepare_approved, commit_approved,
  apply_approved, matches_operation, apply_host_approved, service_id,
}
use komari_agent.Delivery.Receipts.{
  Outcome, Post, answer_of, reason_of, is_postponed, remember, finish, flush_each, flush,
}

-- The settings in force.
abbrev pub active_of : World → Settings
active_of w = w.store.state.active

module _ (Q : Settings → Type 0) where
  held_by_commit :
      (c : Call) (r : Result Error State) (w : World)
      → ((next : State) → r ≡ ok next → Q next.active)
      → Q (active_of w)
      → Q (active_of (commit_result c r w).1)
  held_by_commit c r w n h = commit_result_keeps (λ s. Q s.active) (λ s t q. q) c r w n h

  held_by_ok :
      (c : Call) (next : State) (w : World)
      → Q next.active
      → Q (active_of w)
      → Q (active_of (commit_result c (ok next) w).1)
  held_by_ok c next w good h =
      held_by_commit c (ok next) w (λ n e. subst (λ s. Q s.active) (ok-injective e) good) h

  pub enqueue_holds :
      (c : Call) (receipt : Receipt) (w : World)
      → Q (active_of w)
      → Q (active_of (enqueue c receipt w).1)
  unfolding enqueue commit_result
  enqueue_holds c receipt w h =
      elim (Bool-cases (leb outbox_capacity (length w.store.state.outbox))) [
        | inl full ↦ rw (full, enqueue) h
        | inr room ↦ elim (Bool-cases (has_receipt receipt.id w.store.state.outbox)) [
          | inl old ↦ rw (room, old, enqueue) h
          | inr new ↦ rw (room, new, enqueue) (held_by_ok c _ w h h)
        ]
      ]

  pub finish_receipt_holds :
      (c : Call) (mark : String → String) (id rejected : String) (w : World)
      → Q (active_of w)
      → Q (active_of (finish_receipt c mark id rejected w).1)
  unfolding finish_receipt finish_state
  finish_receipt_holds c mark id rejected w h =
      held_by_ok c (finish_state mark id rejected w.store.state) w h h

  pub record_pending_holds :
      (c : Call) (r : Revision) (w : World)
      → Q (active_of w)
      → Q (active_of (record_pending c r w).1)
  unfolding record_pending
  record_pending_holds c r w h =
      held_by_commit c (prepare_pending r w.store.state) w
        (λ next e. subst Q (sym (prepare_pending-SameTrack r w.store.state e).0) h) h

  approved_active :
      (codec : Codec) (r : Revision) (receipt : Receipt) (s next : State)
      → prepare_approved codec r receipt s ≡ ok next
      → next.active ≡ settings_from_proto r.privileged
  unfolding prepare_approved encoded clear_pending
  approved_active codec r receipt s next h = ground (arith, h)

  commit_approved_holds :
      (c : Call) (r : Revision) (receipt : Receipt) (w : World)
      → Q (settings_from_proto r.privileged)
      → Q (active_of w)
      → Q (active_of (commit_approved c r receipt w).1)
  unfolding commit_approved
  commit_approved_holds c r receipt w new h =
      held_by_commit c (prepare_approved c.codec r receipt w.store.state) w
        (λ next e. subst Q (sym (approved_active c.codec r receipt w.store.state next e)) new) h

  baseline_active :
      (codec : Codec) (r : Revision) (local : Settings) (actual : ℕ) (receipt : Receipt)
      (s next : State)
      → prepare_baseline codec r local actual receipt s ≡ ok next
      → next.active ≡ local
  unfolding prepare_baseline encoded clear_pending
  baseline_active codec r local actual receipt s next h = ground (arith, h)

  pub adopt_baseline_holds :
      (c : Call) (r : Revision) (local : Settings) (actual : ℕ) (receipt : Receipt) (w : World)
      → Q local
      → Q (active_of w)
      → Q (active_of (adopt_baseline c r local actual receipt w).1)
  unfolding adopt_baseline
  adopt_baseline_holds c r local actual receipt w new h =
      held_by_commit c (prepare_baseline c.codec r local actual receipt w.store.state) w
        (λ next e.
          subst Q (sym (baseline_active c.codec r local actual receipt w.store.state next e)) new)
        h

  pub apply_approved_holds :
      (c : Call) (r : Revision) (actual : ℕ) (receipt : Receipt) (w : World)
      → Q (settings_from_proto r.privileged)
      → Q (active_of w)
      → Q (active_of (apply_approved c r actual receipt w).1)
  unfolding apply_approved
  apply_approved_holds c r actual receipt w new h =
      elim (Result-cases (
        validate_approval c.codec.sha256_hex r r.agent_id (service_id r.authorization) actual
          c.now)) [
            | inl (_, e) ↦ rw (apply_approved, e) (commit_approved_holds c r receipt w new h)
            | inr (_, e) ↦ rw (apply_approved, e) h
          ]

  pub apply_host_approved_holds :
      (c : Call) (r : Revision) (op : HostOperation) (actual : ℕ) (receipt : Receipt) (w : World)
      → Q (settings_from_proto r.privileged)
      → Q (active_of w)
      → Q (active_of (apply_host_approved c r op actual receipt w).1)
  unfolding apply_host_approved
  apply_host_approved_holds c r op actual receipt w new h =
      elim (Bool-cases (matches_operation c.codec r op actual)) [
        | inl e ↦ rw (apply_host_approved, e) (commit_approved_holds c r receipt w new h)
        | inr e ↦ rw (apply_host_approved, e) h
      ]

  finish_holds :
      (post : Post) (r : Receipt) (w : World) → Q (active_of w) → Q (active_of (finish post r w).1)
  unfolding finish
  finish_holds post r w h =
      let reason = reason_of (answer_of post r) in
      elim (Result-cases (finish_receipt (post.call r) post.mark r.id reason w).0) [
        | inl (_, e) ↦ rw (finish, e) (finish_receipt_holds (post.call r) post.mark r.id reason w h)
        | inr (_, e) ↦ rw (finish, e) (finish_receipt_holds (post.call r) post.mark r.id reason w h)
      ]

  remember_holds : (o : Outcome) → Q (active_of o.1) → Q (active_of (remember o).1)
  remember_holds (ok _, w) h = h
  remember_holds (err _, w) h = h

  flush_each_holds :
      (post : Post) (receipts : List Receipt) (w : World)
      → Q (active_of w)
      → Q (active_of (flush_each post receipts w).1)
  unfolding flush_each
  flush_each_holds post [] w h = h
  flush_each_holds post (r ∷ receipts) w h = elim (Bool-cases (is_postponed (answer_of post r))) [
    | inl e ↦ rw (flush_each, e) (remember_holds _ (flush_each_holds post receipts w h))
    | inr e ↦ elim (Result-cases (finish post r w).0) [
      | inl (_, f) ↦
          rw (flush_each, e, f)
            (flush_each_holds post receipts (finish post r w).1 (finish_holds post r w h))
      | inr (_, f) ↦ rw (flush_each, e, f) (finish_holds post r w h)
    ]
  ]

  pub flush_holds : (post : Post) (w : World) → Q (active_of w) → Q (active_of (flush post w).1)
  unfolding flush
  flush_holds post w h = flush_each_holds post w.store.state.outbox w h

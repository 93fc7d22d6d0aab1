-- ===== src/Delivery/Steps.antt =====
-- A condition on the settings in force that each step of the handler keeps, where new settings meet it
-- (clientcore/privileged_apply.go, clientcore/baseline.go).
use komari_agent.Shared.{
  ◌≡◌, refl, inl, inr, Bool, Bool-cases, true, false, not, ◌&&◌, Option, none, some, String, sym,
  subst, leb, ltb, is_some, if◌then◌else◌,
}
use komari_agent.Shared.Results.{ok, err}
use komari_agent.Privileged.Model.{Settings, settings_from_proto, Receipt, Revision, HostOperation}
use komari_agent.Privileged.Approval.{is_awaiting, is_applying}
use komari_agent.Privileged.Commit.{World}
use komari_agent.Privileged.Commit.{Outcome as StoreOutcome}
use komari_agent.Privileged.Operations.{record_pending}
use komari_agent.RuntimeConfig.Effective.{Policy}
use komari_agent.Host.Verify.{SignedRevision}
use komari_agent.Delivery.Receipts.{stale_sequence, DeliveryError, Outcome, flush}
use komari_agent.Delivery.Baseline.{
  Notice, Station, Surroundings, Done, verify_v2, baseline_of, then_flush, adopt, accept_checked,
  after_check, accept_installed, accept_baseline,
}
use komari_agent.Delivery.Apply.{
  fail_with, fail_privileged, check_settings, apply_with, or_fail, grant, grant_operation,
  approval_of, authorize, has_changed, installed, confirm, proceed, acknowledge, acknowledged,
  pended, handle, record_privileged,
}
use komari_agent.Delivery.Grants.{
  active_of, enqueue_holds, record_pending_holds, adopt_baseline_holds, apply_approved_holds,
  apply_host_approved_holds, flush_holds,
}

module _ (Q : Settings → Type 0) (st : Station) (x : Surroundings) where
  abbrev InForce : World → Type 0
  InForce w = Q (active_of w)

  then_flush_holds : (o : StoreOutcome) → InForce o.1 → InForce (then_flush x o).1
  then_flush_holds (err e, w) h = h
  then_flush_holds (ok _, w) h = flush_holds Q x.post w h

  fail_with_holds :
      (cause : DeliveryError) (o : Outcome) → InForce o.1 → InForce (fail_with cause o).1
  fail_with_holds cause (err e, w) h = h
  fail_with_holds cause (ok _, w) h = h

  fail_privileged_holds :
      (cause : DeliveryError) (receipt : Option Receipt) (w : World)
      → InForce w
      → InForce (fail_privileged x cause receipt w).1
  unfolding fail_privileged
  fail_privileged_holds cause none w h = h
  fail_privileged_holds cause (some receipt) w h =
      fail_with_holds cause _ (then_flush_holds _ (enqueue_holds Q x.fail_call receipt w h))

  after_check_holds :
      (d : Done) (w : World) (next : Outcome)
      → InForce w
      → (d ≡ ok tt → InForce next.1)
      → InForce (after_check d w next).1
  after_check_holds (err e) w next h k = h
  after_check_holds (ok _) w next h k = k refl

  or_fail_holds :
      (d : Done) (w : World) (next : Outcome)
      → InForce w
      → (d ≡ ok tt → InForce next.1)
      → InForce (or_fail x d w next).1
  or_fail_holds (err e) w next h k = fail_privileged_holds e x.failed w h
  or_fail_holds (ok _) w next h k = k refl

  apply_with_holds :
      (r : Revision) (op : Option HostOperation) (receipt : Option Receipt) (w : World)
      → Q (settings_from_proto r.privileged)
      → InForce w
      → InForce (apply_with x r op receipt w).1
  unfolding apply_with
  apply_with_holds r op none w new h = h
  apply_with_holds r none (some receipt) w new h =
      then_flush_holds _ (apply_approved_holds Q x.apply_call r x.actual receipt w new h)
  apply_with_holds r (some op) (some receipt) w new h =
      then_flush_holds _ (apply_host_approved_holds Q x.apply_call r op x.actual receipt w new h)

  if_holds : (b : Bool) (o p : Outcome) → InForce o.1 → InForce p.1 → InForce (if b then o else p).1
  if_holds true o p h k = h
  if_holds false o p h k = k

  grant_holds :
      (r : Revision) (op : Option HostOperation) (w : World)
      → (check_settings st x (settings_from_proto r.privileged) ≡ ok tt
          → Q (settings_from_proto r.privileged))
      → InForce w
      → InForce (grant st x r op w).1
  unfolding grant
  grant_holds r op w new h =
      or_fail_holds (check_settings st x (settings_from_proto r.privileged)) w _ h
        λ c. if_holds _ _ _ h (apply_with_holds r op x.delivered w (new c) h)

  grant_operation_holds :
      (r : Revision) (op : Option HostOperation) (w : World)
      → (check_settings st x (settings_from_proto r.privileged) ≡ ok tt
          → Q (settings_from_proto r.privileged))
      → InForce w
      → InForce (grant_operation st x r op w).1
  unfolding grant_operation
  grant_operation_holds r none w new h = h
  grant_operation_holds r (some op) w new h = grant_holds r (some op) w new h

  authorize_holds :
      (service : String) (r : Revision) (w : World)
      → (check_settings st x (settings_from_proto r.privileged) ≡ ok tt
          → Q (settings_from_proto r.privileged))
      → InForce w
      → InForce (authorize st x service r w).1
  unfolding authorize
  authorize_holds service r w new h =
      if_holds (is_applying r.state) _ _ (grant_operation_holds r x.operation w new h)
        (or_fail_holds (approval_of st x service r) w _ h (λ _. grant_holds r none w new h))

  installed_holds :
      (service : Option String) (r : Revision) (w : World)
      → (check_settings st x (settings_from_proto r.privileged) ≡ ok tt
          → Q (settings_from_proto r.privileged))
      → InForce w
      → InForce (installed st x service r w).1
  unfolding installed
  installed_holds none r w new h = fail_privileged_holds _ x.failed w h
  installed_holds (some service) r w new h =
      if_holds (is_some x.policy) _ _ (authorize_holds service r w new h)
        (fail_privileged_holds _ x.failed w h)

  -- `new` is what a confirmed revision justifies.
  confirm_holds :
      (r : Revision) (o : Option Notice) (w : World)
      → ((current : Notice)
          → o ≡ some current
          → verify_v2 st x current.signed ≡ ok tt
          → has_changed st r current.signed.revision ≡ false
          → check_settings st x (settings_from_proto current.signed.revision.privileged) ≡ ok tt
          → Q (settings_from_proto current.signed.revision.privileged))
      → InForce w
      → InForce (confirm st x r o w).1
  unfolding confirm
  confirm_holds r none w new h = h
  confirm_holds r (some current) w new h =
      after_check_holds (verify_v2 st x current.signed) w _ h λ v.
        elim (Bool-cases (has_changed st r current.signed.revision)) [
          | inl e ↦ rw e h
          | inr e ↦
              rw e (installed_holds st.service current.signed.revision w (new current refl v e) h)
        ]

  baseline_holds :
      (r : SignedRevision) (w : World)
      → ((p : Policy)
          → x.start_policy ≡ some p
          → verify_v2 st x r ≡ ok tt
          → Q (baseline_of st x p r.revision))
      → InForce w
      → InForce (accept_baseline st x r w).1
  unfolding accept_baseline accept_installed accept_checked adopt
  baseline_holds r w new h = go st.service x.start_policy new
    where
      adopted :
          (p : Policy) (o : Option Receipt)
          → Q (baseline_of st x p r.revision)
          → InForce (adopt st x p r.revision o w).1
      adopted p none k = h
      adopted p (some receipt) k =
          then_flush_holds _
            (adopt_baseline_holds Q x.apply_call r.revision _ x.actual receipt w k h)

      go :
          (service : Option String) (o : Option Policy)
          → ((p : Policy)
              → o ≡ some p
              → verify_v2 st x r ≡ ok tt
              → Q (baseline_of st x p r.revision))
          → InForce (accept_installed st x r service o w).1
      go none o k = h
      go (some service) none k = h
      go (some service) (some p) k =
          if_holds (leb 1 w.store.state.applied_revision) _ _ (flush_holds Q x.post w h) (
            after_check_holds (verify_v2 st x r) w _ h
              (λ v. if_holds _ _ _ h (adopted p x.delivered (k p refl v))))

  -- What justifies new settings, by a confirmed revision or by a baseline.
  module _ (n : Notice)
      (granted : (current : Notice)
        → x.current ≡ some current
        → verify_v2 st x current.signed ≡ ok tt
        → has_changed st n.signed.revision current.signed.revision ≡ false
        → check_settings st x (settings_from_proto current.signed.revision.privileged) ≡ ok tt
        → Q (settings_from_proto current.signed.revision.privileged))
      (started : n.signed.revision.installation_baseline ≡ true
        → (p : Policy) → x.start_policy ≡ some p
        → verify_v2 st x n.signed ≡ ok tt
        → Q (baseline_of st x p n.signed.revision)) where
    proceed_holds : (o : StoreOutcome) → InForce o.1 → InForce (proceed st x n.signed.revision o).1
    unfolding proceed
    proceed_holds (err e, w) h = h
    proceed_holds (ok _, w) h =
        if_holds
          (not (is_awaiting n.signed.revision.state) && not (is_applying n.signed.revision.state)) _
          _ (flush_holds Q x.post w h) (confirm_holds n.signed.revision x.current w granted h)

    acknowledged_holds :
        (is_received : Bool) (receipt : Option Receipt) (w : World)
        → InForce w
        → InForce (acknowledged st x n.signed.revision w (acknowledge x is_received receipt w)).1
    unfolding acknowledge
    acknowledged_holds true receipt w h = proceed_holds (ok tt, w) h
    acknowledged_holds false none w h = h
    acknowledged_holds false (some receipt) w h =
        proceed_holds _ (enqueue_holds Q x.receipt_call receipt w h)

    pended_holds : (o : StoreOutcome) → InForce o.1 → InForce (pended st x n o).1
    pended_holds (err e, w) h = h
    pended_holds (ok _, w) h = acknowledged_holds n.is_received x.received w h

    handle_holds : (w : World) → InForce w → InForce (handle st x n w).1
    unfolding handle
    handle_holds w h = elim (Bool-cases n.signed.revision.installation_baseline) [
      | inl e ↦
          subst (λ b. InForce (if b then accept_baseline st x n.signed w else other).1) (sym e)
            (baseline_holds n.signed w (started e) h)
      | inr e ↦
          subst (λ b. InForce (if b then accept_baseline st x n.signed w else other).1) (sym e)
            (if_holds (leb n.signed.revision.revision w.store.state.applied_revision) _ _
              (flush_holds Q x.post w h)
              (if_holds (ltb n.signed.revision.update_sequence w.store.state.last_sequence) _ _ h
                (pended_holds _ (record_pending_holds Q x.pend_call n.signed.revision w h))))
    ]
      where
        other : Outcome
        other =
            let r = n.signed.revision in
            if leb r.revision w.store.state.applied_revision
            then flush x.post w
            else if ltb r.update_sequence w.store.state.last_sequence
            then (err stale_sequence, w)
            else pended st x n (record_pending x.pend_call r w)

    pub record_privileged_holds : (w : World) → InForce w → InForce (record_privileged st x n w).1
    unfolding record_privileged
    record_privileged_holds w h =
        after_check_holds (verify_v2 st x n.signed) w _ h (λ _. handle_holds w h)

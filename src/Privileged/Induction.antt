-- ===== src/Privileged/Induction.antt =====
-- Induction over runs of the store's methods (core/privileged): a predicate of the state that each
-- prepared state keeps holds after any run.
use komari_agent.Shared.{
  ℕ, ◌≡◌, refl, subst, inl, inr, arith, Bool, true, false, not, ◌||◌, all, List, [], ◌∷◌, ◌++◌,
  String, leb, Bool-cases, Option-cases, length,
}
use komari_agent.Shared.Results.{Result, ok, Result-cases}
use komari_agent.Privileged.Model.{Settings, Receipt, State, clear_pending, Revision, HostOperation}
use komari_agent.Privileged.Approval.{Error, validate_approval}
use komari_agent.Privileged.Commit.{Codec, World, Call, commit_result}
use komari_agent.Privileged.Durability.{commit_result_keeps}
use komari_agent.Privileged.Operations.{
  service_id, prepare_pending, record_pending, promote, prepare_rollback, rollback, discard_pending,
  prepare_baseline, adopt_baseline, outbox_capacity, has_receipt, enqueue, finish_state,
  finish_receipt, prepare_approved, commit_approved, apply_approved, matches_operation,
  apply_host_approved,
}
use komari_agent.Privileged.Methods.{
  Method, pend, promotion, roll_back, discard, baseline, queue, finish, approve, host_approve,
  perform, run,
}

-- Every state that a method prepares keeps `P` (for `Rollback` only if `rolls` says so), and so does
-- the time of the write.
pub record IsPreserved (rolls : Bool) (P : State → Type 0) : Type 0 where
  pub stable : (s : State) (t : ℕ) → P s → P (record s { updated_at = t })
  pub pend : (r : Revision) (s next : State) → prepare_pending r s ≡ ok next → P s → P next
  pub roll_back : rolls ≡ true → (s next : State) → prepare_rollback s ≡ ok next → P s → P next
  pub clear : (s : State) → P s → P (clear_pending s)
  pub baseline :
      (codec : Codec) (r : Revision) (local : Settings) (actual : ℕ) (receipt : Receipt)
      (s next : State)
      → prepare_baseline codec r local actual receipt s ≡ ok next
      → P s
      → P next
  pub queue :
      (receipt : Receipt) (s : State)
      → leb outbox_capacity (length s.outbox) ≡ false
      → P s
      → P (record s { outbox = s.outbox ++ (receipt ∷ []) })
  pub finish :
      (mark : String → String) (id rejected : String) (s : State)
      → P s
      → P (finish_state mark id rejected s)
  pub approved :
      (codec : Codec) (r : Revision) (receipt : Receipt) (s next : State)
      → prepare_approved codec r receipt s ≡ ok next
      → P s
      → P next

abbrev pub is_roll_back : Method → Bool
is_roll_back roll_back = true
is_roll_back _ = false

module _ (rolls : Bool) (P : State → Type 0) (k : IsPreserved rolls P) where
  keeps :
      (c : Call) (r : Result Error State) (w : World)
      → ((next : State) → r ≡ ok next → P next)
      → P w.store.state
      → P (commit_result c r w).1.store.state
  keeps = commit_result_keeps P k.stable

  keeps_ok :
      (c : Call) (next : State) (w : World)
      → P next
      → P w.store.state
      → P (commit_result c (ok next) w).1.store.state
  keeps_ok c next w good h = keeps c (ok next) w (λ n e. subst P (cc) good) h

  enqueue_keeps :
      (c : Call) (receipt : Receipt) (w : World)
      → P w.store.state
      → P (enqueue c receipt w).1.store.state
  unfolding enqueue
  enqueue_keeps c receipt w h =
      elim (Bool-cases (leb outbox_capacity (length w.store.state.outbox))) [
        | inl full ↦ rw (full, enqueue) h
        | inr room ↦
            rw (room, enqueue)
              (elim (Bool-cases (has_receipt receipt.id w.store.state.outbox)) [
                | inl old ↦ rw (old, enqueue) h
                | inr new ↦
                    rw (new, enqueue)
                      (keeps_ok c
                        (record (w.store.state) { outbox = w.store.state.outbox ++ (receipt ∷ []) })
                        w (k.queue receipt w.store.state room h) h)
              ])
      ]

  discard_pending_keeps :
      (c : Call) (w : World) → P w.store.state → P (discard_pending c w).1.store.state
  unfolding discard_pending
  discard_pending_keeps c w h = elim (Option-cases w.store.state.pending) [
    | inl e ↦ rw (e, discard_pending) h
    | inr (p, e) ↦
        rw (e, discard_pending)
          (keeps_ok c (clear_pending w.store.state) w (k.clear w.store.state h) h)
  ]

  commit_approved_keeps :
      (c : Call) (r : Revision) (receipt : Receipt) (w : World)
      → P w.store.state
      → P (commit_approved c r receipt w).1.store.state
  unfolding commit_approved
  commit_approved_keeps c r receipt w h =
      keeps c (prepare_approved c.codec r receipt w.store.state) w
        (λ next e. k.approved c.codec r receipt w.store.state next e h) h

  apply_approved_keeps :
      (c : Call) (r : Revision) (actual : ℕ) (receipt : Receipt) (w : World)
      → P w.store.state
      → P (apply_approved c r actual receipt w).1.store.state
  unfolding apply_approved
  apply_approved_keeps c r actual receipt w h =
      elim (Result-cases (
        validate_approval c.codec.sha256_hex r r.agent_id (service_id r.authorization) actual
          c.now)) [
            | inl (_, e) ↦ rw (e, apply_approved) (commit_approved_keeps c r receipt w h)
            | inr (x, e) ↦ rw (e, apply_approved) h
          ]

  apply_host_approved_keeps :
      (c : Call) (r : Revision) (op : HostOperation) (actual : ℕ) (receipt : Receipt) (w : World)
      → P w.store.state
      → P (apply_host_approved c r op actual receipt w).1.store.state
  unfolding apply_host_approved
  apply_host_approved_keeps c r op actual receipt w h =
      elim (Bool-cases (matches_operation c.codec r op actual)) [
        | inl e ↦ rw (e, apply_host_approved) (commit_approved_keeps c r receipt w h)
        | inr e ↦ rw (e, apply_host_approved) h
      ]

  pub perform_keeps :
      (c : Call) (m : Method) (w : World)
      → (is_roll_back m ≡ true → rolls ≡ true)
      → P w.store.state
      → P (perform c m w).1.store.state
  unfolding perform record_pending promote rollback adopt_baseline finish_receipt
  perform_keeps c (pend r) w _ h =
      keeps c (prepare_pending r w.store.state) w (λ next e. k.pend r w.store.state next e h) h
  perform_keeps c promotion w _ h = h
  perform_keeps c roll_back w r h =
      keeps c (prepare_rollback w.store.state) w
        (λ next e. k.roll_back (r refl) w.store.state next e h) h
  perform_keeps c discard w _ h = discard_pending_keeps c w h
  perform_keeps c (baseline r local actual receipt) w _ h =
      keeps c (prepare_baseline c.codec r local actual receipt w.store.state) w
        (λ next e. k.baseline c.codec r local actual receipt w.store.state next e h) h
  perform_keeps c (queue receipt) w _ h = enqueue_keeps c receipt w h
  perform_keeps c (finish mark id rejected) w _ h =
      keeps_ok c (finish_state mark id rejected w.store.state) w
        (k.finish mark id rejected w.store.state h) h
  perform_keeps c (approve r actual receipt) w _ h = apply_approved_keeps c r actual receipt w h
  perform_keeps c (host_approve r op actual receipt) w _ h =
      apply_host_approved_keeps c r op actual receipt w h

  pub run_keeps :
      (calls : List (Call × Method)) (w : World)
      → all (λ (x : Call × Method). rolls || not (is_roll_back x.1)) calls ≡ true
      → P w.store.state
      → P (run calls w).store.state
  unfolding run
  run_keeps [] w a h = h
  run_keeps ((c, m) ∷ calls) w a h =
      run_keeps calls (perform c m w).1 (ground arith) (perform_keeps c m w (λ e. ground arith) h)

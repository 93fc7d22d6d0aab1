-- ===== src/Privileged/History.antt =====
-- The order of revisions and the bounds of the queues, over any run of the store's methods
-- (core/privileged).
use komari_agent.Shared.{
  all, not, ◌||◌, ℕ, ◌-◌, ◌≤◌, ◌<◌, ◌≡◌, refl, true, false, Option, some, List, [], ◌∷◌, ◌++◌,
  String, arith, str_eq, if◌then◌else◌, leb, is_some, length, length-append, length-drop,
}
use komari_agent.Shared.Results.{ok}
use komari_agent.Privileged.Model.{
  Settings, settings_from_proto, Receipt, State, clear_pending, Revision, Plan,
}
use komari_agent.Privileged.Commit.{Codec, World, Call}
use komari_agent.Privileged.Operations.{
  with_plan, prepare_pending, prepare_rollback, encoded, has_history, prepare_baseline,
  outbox_capacity, unfinished, finished, truncate_rejected, finish_state, prepare_approved,
}
use komari_agent.Privileged.Methods.{Method, run}
use komari_agent.Privileged.Induction.{IsPreserved, is_roll_back, run_keeps}

-- A pending revision is newer than the applied one, what a rollback returns to is older, and the
-- two queues of receipts stay within their bounds.
pub record IsSound (s : State) : Type 0 where
  pub pending_newer : is_some s.pending ≡ true → s.applied_revision < s.pending_revision
  pub previous_older : is_some s.previous ≡ true → s.previous_revision < s.applied_revision
  pub outbox_bounded : length s.outbox ≤ 1024
  pub rejected_bounded : length s.rejected_receipts ≤ 128

-- The fields that `IsSound` reads.
abbrev SameHistory : State → State → Type 0
SameHistory a b =
    (a.pending ≡ b.pending)
    × (a.pending_revision ≡ b.pending_revision)
    × (a.applied_revision ≡ b.applied_revision)
    × (a.previous ≡ b.previous)
    × (a.previous_revision ≡ b.previous_revision)
    × (a.outbox ≡ b.outbox)
    × (a.rejected_receipts ≡ b.rejected_receipts)

with_plan-SameHistory : (p : Option Plan) (s : State) → SameHistory (with_plan p s) s
unfolding with_plan
with_plan-SameHistory p s = ground arith

SameHistory-IsSound : {a b : State} → SameHistory a b → IsSound b → IsSound a
SameHistory-IsSound h k = ground arith

-- The state that `prepare_pending` hands to `with_plan`.
abbrev delivered_state : Revision → State → State
delivered_state r s = record s {
  pending_revision = r.revision;
  last_sequence = r.update_sequence;
  pending = some (settings_from_proto r.privileged);
  pending_reasons = [];
  pending_task_id = "";
  pending_nonce = "";
  pending_expiry = 0;
  pending_class = 0;
}

prepare_pending-IsSound :
    (r : Revision) (s : State) {next : State}
    → prepare_pending r s ≡ ok next
    → IsSound s
    → IsSound next
unfolding prepare_pending
prepare_pending-IsSound r s h k = ground (arith, with_plan-SameHistory r.plan (delivered_state r s))

prepare_rollback-IsSound :
    (s : State) {next : State} → prepare_rollback s ≡ ok next → IsSound s → IsSound next
unfolding prepare_rollback
prepare_rollback-IsSound s h k = ground arith

clear_pending-IsSound : (s : State) → IsSound s → IsSound (clear_pending s)
unfolding clear_pending
clear_pending-IsSound s h = ground arith

prepare_baseline-IsSound :
    (codec : Codec) (r : Revision) (local : Settings) (actual : ℕ) (receipt : Receipt) (s : State)
    {next : State}
    → prepare_baseline codec r local actual receipt s ≡ ok next
    → IsSound s
    → IsSound next
unfolding prepare_baseline encoded clear_pending has_history
prepare_baseline-IsSound codec r local actual receipt s h k =
    ground (arith, length-append s.outbox (receipt ∷ []))

prepare_approved-IsSound :
    (codec : Codec) (r : Revision) (receipt : Receipt) (s : State) {next : State}
    → prepare_approved codec r receipt s ≡ ok next
    → IsSound s
    → IsSound next
unfolding prepare_approved
prepare_approved-IsSound codec r receipt s h k =
    ground (arith, length-append s.outbox (receipt ∷ []))

length-unfinished : (id : String) (rs : List Receipt) → length (unfinished id rs) ≤ length rs
unfolding unfinished
length-unfinished id [] = omega arith
length-unfinished id (r ∷ rs) = ground (arith, length-unfinished id rs)

length-truncate_rejected : (rs : List Receipt) → length (truncate_rejected rs) ≤ 128
unfolding truncate_rejected
length-truncate_rejected rs = ground (arith, length-drop (length rs - 128) rs)

finish_state-IsSound :
    (mark : String → String) (id rejected : String) (s : State)
    → IsSound s
    → IsSound (finish_state mark id rejected s)
unfolding finish_state
finish_state-IsSound mark id rejected s h = ground (
  arith,
  length-unfinished id s.outbox,
  length-truncate_rejected (
      if str_eq rejected ""
      then s.rejected_receipts
      else s.rejected_receipts ++ finished mark id rejected s.outbox),
)

queued-IsSound :
    (receipt : Receipt) (s : State)
    → leb outbox_capacity (length s.outbox) ≡ false
    → IsSound s
    → IsSound (record s { outbox = s.outbox ++ (receipt ∷ []) })
queued-IsSound receipt s room h = ground (arith, length-append s.outbox (receipt ∷ []))

IsSound-IsPreserved : IsPreserved true IsSound
IsSound-IsPreserved = record {
  stable = λ s t h. SameHistory-IsSound (refl, refl, refl, refl, refl, refl, refl) h;
  pend = λ r s next e h. prepare_pending-IsSound r s e h;
  roll_back = λ _ s next e h. prepare_rollback-IsSound s e h;
  clear = clear_pending-IsSound;
  baseline = λ codec r local actual receipt s next e h.
      prepare_baseline-IsSound codec r local actual receipt s e h;
  queue = queued-IsSound;
  finish = finish_state-IsSound;
  approved = λ codec r receipt s next e h. prepare_approved-IsSound codec r receipt s e h;
}

any_method :
    (calls : List (Call × Method))
    → all (λ (x : Call × Method). true || not (is_roll_back x.1)) calls ≡ true
any_method [] = refl
any_method (x ∷ calls) = ground (arith, any_method calls)

-- Over any run of the store's methods, whatever they return and whichever system calls fail: a
-- pending revision stays newer than the applied one, a rollback goes to an older one, and the two
-- queues of receipts stay within 1024 and 128 entries.
pub run-IsSound :
    (calls : List (Call × Method)) (w : World)
    → IsSound w.store.state
    → IsSound (run calls w).store.state
run-IsSound calls w = run_keeps true IsSound IsSound-IsPreserved calls w (any_method calls)

-- The last sequence is at least `n`.
abbrev Reached : ℕ → State → Type 0
Reached n s = n ≤ s.last_sequence

with_plan-last_sequence :
    (p : Option Plan) (s : State) → (with_plan p s).last_sequence ≡ s.last_sequence
unfolding with_plan
with_plan-last_sequence p s = ground arith

prepare_pending-Reached :
    (n : ℕ) (r : Revision) (s : State) {next : State}
    → prepare_pending r s ≡ ok next
    → Reached n s
    → Reached n next
unfolding prepare_pending
prepare_pending-Reached n r s e h =
    ground (arith, with_plan-last_sequence r.plan (delivered_state r s))

prepare_rollback-Reached :
    (n : ℕ) (s : State) {next : State} → prepare_rollback s ≡ ok next → Reached n s → Reached n next
unfolding prepare_rollback
prepare_rollback-Reached n s e h = ground arith

clear_pending-Reached : (n : ℕ) (s : State) → Reached n s → Reached n (clear_pending s)
unfolding clear_pending
clear_pending-Reached n s h = h

prepare_baseline-Reached :
    (n : ℕ) (codec : Codec) (r : Revision) (local : Settings) (actual : ℕ) (receipt : Receipt)
    (s : State) {next : State}
    → prepare_baseline codec r local actual receipt s ≡ ok next
    → Reached n s
    → Reached n next
unfolding prepare_baseline encoded clear_pending
prepare_baseline-Reached n codec r local actual receipt s e h = ground arith

prepare_approved-Reached :
    (n : ℕ) (codec : Codec) (r : Revision) (receipt : Receipt) (s : State) {next : State}
    → prepare_approved codec r receipt s ≡ ok next
    → Reached n s
    → Reached n next
unfolding prepare_approved
prepare_approved-Reached n codec r receipt s e h = ground arith

finish_state-Reached :
    (n : ℕ) (mark : String → String) (id rejected : String) (s : State)
    → Reached n s
    → Reached n (finish_state mark id rejected s)
unfolding finish_state
finish_state-Reached n mark id rejected s h = h

-- No run of the methods, a rollback included, lowers the sequence number below which deliveries and
-- approvals are refused as stale.
pub last_sequence-le-run :
    (calls : List (Call × Method)) (w : World)
    → w.store.state.last_sequence ≤ (run calls w).store.state.last_sequence
last_sequence-le-run calls w =
    run_keeps true (Reached w.store.state.last_sequence)
      (record {
        stable = λ s t h. h;
        pend = λ r s next e h. prepare_pending-Reached _ r s e h;
        roll_back = λ _ s next e h. prepare_rollback-Reached _ s e h;
        clear = λ s h. clear_pending-Reached _ s h;
        baseline = λ codec r local actual receipt s next e h.
            prepare_baseline-Reached _ codec r local actual receipt s e h;
        queue = λ receipt s room h. h;
        finish = λ mark id rejected s h. finish_state-Reached _ mark id rejected s h;
        approved = λ codec r receipt s next e h. prepare_approved-Reached _ codec r receipt s e h;
      })
      calls w (any_method calls) (omega arith)

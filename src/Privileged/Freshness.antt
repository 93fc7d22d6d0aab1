-- ===== src/Privileged/Freshness.antt =====
-- An approval is applied once (core/privileged): the applied revision goes down by a rollback only.
use komari_agent.Shared.{ℕ, ◌≤◌, ◌≡◌, true, false, not, List, all, arith}
use komari_agent.Shared.Results.{ok, err}
use komari_agent.Privileged.Model.{Settings, Receipt, State, clear_pending, Revision}
use komari_agent.Privileged.Approval.{Error}
use komari_agent.Privileged.Commit.{Codec, World, Call}
use komari_agent.Privileged.Operations.{
  encoded, prepare_baseline, has_history, finish_state, apply_approved,
}
use komari_agent.Privileged.Methods.{Method, run}
use komari_agent.Privileged.Restriction.{prepare_pending-SameTrack}
use komari_agent.Privileged.Induction.{IsPreserved, is_roll_back, run_keeps}
use komari_agent.Privileged.Approvals.{
  prepare_approved-eq_ok, apply_approved_lem, apply_approved_stale,
}

-- A revision of at least `n` was applied.
abbrev IsPast : ℕ → State → Type 0
IsPast n s = n ≤ s.applied_revision

prepare_baseline-IsPast :
    (n : ℕ) (codec : Codec) (r : Revision) (local : Settings) (actual : ℕ) (receipt : Receipt)
    (s next : State)
    → prepare_baseline codec r local actual receipt s ≡ ok next
    → IsPast n s
    → IsPast n next
unfolding prepare_baseline has_history encoded clear_pending
prepare_baseline-IsPast n codec r local actual receipt s next e h = ground arith

IsPast-IsPreserved : (n : ℕ) → IsPreserved false (IsPast n)
unfolding clear_pending finish_state
IsPast-IsPreserved n = record {
  stable = λ s t h. h;
  pend = λ r s next e h. omega (arith, (prepare_pending-SameTrack r s e).1, h);
  roll_back = λ impossible s next e h. cc;
  clear = λ s h. h;
  baseline = prepare_baseline-IsPast n;
  queue = λ receipt s room h. h;
  finish = λ mark id rejected s h. h;
  approved = λ codec r receipt s next e h.
      let f = prepare_approved-eq_ok codec r receipt s e in omega (arith, f.0.0, f.1, h);
}

-- After an approval was applied, a later approval of the same revision, or of an older one, is refused
-- without an effect, whatever calls of the store's methods come between, successful or not, unless a
-- rollback is among them, and whatever receipt, identity, clock, codec and faults the later call has.
pub apply_approved_once :
    (c d : Call) (r late : Revision) (actual actual' : ℕ) (receipt receipt' : Receipt)
    (between : List (Call × Method)) (w : World)
    → (apply_approved c r actual receipt w).0 ≡ ok tt
    → all (λ (x : Call × Method). not (is_roll_back x.1)) between ≡ true
    → late.revision ≤ r.revision
    → let w' = run between (apply_approved c r actual receipt w).1 in
      (e : Error) × (apply_approved d late actual' receipt' w' ≡ (err e, w'))
apply_approved_once c d r late actual actual' receipt receipt' between w h forward le =
    let after = (apply_approved c r actual receipt w).1 in
    let past =
      run_keeps false (IsPast r.revision) (IsPast-IsPreserved r.revision) between after forward
        (omega (arith, (apply_approved_lem c r actual receipt w h).2)) in
    apply_approved_stale d late actual' receipt' (run between after) (omega (arith, past, le))

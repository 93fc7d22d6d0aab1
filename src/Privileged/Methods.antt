-- ===== src/Privileged/Methods.antt =====
-- The methods of `Store` as data, and runs of them: each call has its own clock, faults and codec
-- results, and any method may follow any other.
use komari_agent.Shared.{ℕ, List, [], ◌∷◌, String}
use komari_agent.Privileged.Model.{Settings, Receipt, Revision, HostOperation}
use komari_agent.Privileged.Commit.{World, Outcome, Call}
use komari_agent.Privileged.Operations.{
  record_pending, promote, rollback, discard_pending, adopt_baseline, enqueue, finish_receipt,
  apply_approved, apply_host_approved,
}

pub data Method : Type 0 where
  pend : Revision → Method
  promotion : Method
  roll_back : Method
  discard : Method
  baseline : Revision → Settings → ℕ → Receipt → Method
  queue : Receipt → Method
  finish : (String → String) → String → String → Method
  approve : Revision → ℕ → Receipt → Method
  host_approve : Revision → HostOperation → ℕ → Receipt → Method

unfoldable pub perform : Call → Method → World → Outcome
perform c (pend r) w = record_pending c r w
perform c promotion w = promote w
perform c roll_back w = rollback c w
perform c discard w = discard_pending c w
perform c (baseline r local actual receipt) w = adopt_baseline c r local actual receipt w
perform c (queue receipt) w = enqueue c receipt w
perform c (finish mark id rejected) w = finish_receipt c mark id rejected w
perform c (approve r actual receipt) w = apply_approved c r actual receipt w
perform c (host_approve r op actual receipt) w = apply_host_approved c r op actual receipt w

unfoldable pub run : List (Call × Method) → World → World
unfolding perform
run [] w = w
run ((c, m) ∷ calls) w = run calls (perform c m w).1

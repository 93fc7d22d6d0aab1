-- ===== src/RuntimeConfig/Requests.antt =====
-- What may happen to the runtime store of an installation, as data: desired revisions, rollbacks
-- and restarts of the agent, which reads the file again, each with its own faults.
use komari_agent.Shared.{List, [], ◌∷◌, String}
use komari_agent.Shared.Results.{ok, err}
use komari_agent.RuntimeConfig.Model.{Snapshot, DesiredConfig}
use komari_agent.RuntimeConfig.Store.{World, Faults, apply_with_receipt, rollback, new_store}

pub data Request : Type 0 where
  apply : DesiredConfig → String → Request
  roll_back : Request
  restart : Request

-- `initial` is the snapshot of the flags. An agent that does not start leaves its store unused.
unfoldable pub restarted : Snapshot → Faults → World → World
restarted initial f w = elim (new_store initial f.read w.disk.file) [
  | ok s ↦ record w { store = s }
  | err _ ↦ w
]

unfoldable pub perform : Snapshot → Faults → Request → World → World
perform initial f (apply desired receipt) w = (apply_with_receipt f desired receipt w).1
perform initial f roll_back w = (rollback f w).1
perform initial f restart w = restarted initial f w

unfoldable pub run : Snapshot → List (Faults × Request) → World → World
run initial [] w = w
run initial ((f, r) ∷ requests) w = run initial requests (perform initial f r w)

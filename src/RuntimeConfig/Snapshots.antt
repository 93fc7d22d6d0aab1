-- ===== src/RuntimeConfig/Snapshots.antt =====
-- What the runtime store guarantees of its snapshots (core/runtimeconfig/store.go).
use komari_agent.Shared.{
  ◌≤◌, ◌≡◌, refl, Bool, false, Option, none, some, List, [], String, arith, length,
}
use komari_agent.Shared.Results.{ok}
use komari_agent.RuntimeConfig.Model.{Snapshot, validate}
use komari_agent.RuntimeConfig.Store.{
  PersistedState, Content, stored, malformed, Store, World, Faults, load, new_store,
}
use komari_agent.RuntimeConfig.Files.{state_of, store_of, Held}
use komari_agent.RuntimeConfig.Requests.{Request, run}
use komari_agent.RuntimeConfig.Induction.{prepare-eq_ok, IsKept, run-HoldsIn, new_store-Held}

pub record IsValid (p : PersistedState) : Type 0 where
  pub current_valid : validate p.current ≡ ok tt
  pub previous_valid : (s : Snapshot) → p.previous ≡ some s → validate s ≡ ok tt
  pub receipts_bounded : length p.receipts ≤ 1024

IsValid-IsKept : IsKept IsValid
IsValid-IsKept = record {
  applied =
      λ desired receipt s next e h. ground (arith, prepare-eq_ok desired receipt s {next = next});
  acknowledged =
      λ desired receipt s next e q h. ground (arith, prepare-eq_ok desired receipt s {next = next});
  returned = λ s previous e h. ground (arith, h.previous_valid previous e);
}

-- Both snapshots have the two fields that only an installation sets.
pub record IsInstalledWith (remote_control gpu : Bool) (p : PersistedState) : Type 0 where
  pub current_remote : p.current.remote_control_enabled ≡ remote_control
  pub current_gpu : p.current.enable_gpu ≡ gpu
  pub previous_remote :
      (s : Snapshot) → p.previous ≡ some s → s.remote_control_enabled ≡ remote_control
  pub previous_gpu : (s : Snapshot) → p.previous ≡ some s → s.enable_gpu ≡ gpu

IsInstalledWith-IsKept : (remote_control gpu : Bool) → IsKept (IsInstalledWith remote_control gpu)
IsInstalledWith-IsKept remote_control gpu = record {
  applied =
      λ desired receipt s next e h. ground (arith, prepare-eq_ok desired receipt s {next = next});
  acknowledged = λ desired receipt s next e q h. ground arith;
  returned =
      λ s previous e h. ground (arith, h.previous_remote previous e, h.previous_gpu previous e);
}

-- A first start: no file yet, the snapshot of the flags.
abbrev pub fresh : String → Snapshot → World
fresh path initial = record {
  path = path;
  store = record { current = initial; previous = none; receipts = [] };
  disk = record { file = none; backup = none };
}

-- From a first start with a valid snapshot, no run of requests and restarts, whichever of their
-- system calls fail, changes whether remote control or the GPU is enabled.
pub run_keeps_install_only :
    (path : String) (initial : Snapshot) (requests : List (Faults × Request))
    → ((run initial requests (fresh path initial)).store.current.remote_control_enabled
        ≡ initial.remote_control_enabled)
      × ((run initial requests (fresh path initial)).store.current.enable_gpu ≡ initial.enable_gpu)
run_keeps_install_only path initial requests =
    let start : IsInstalledWith initial.remote_control_enabled initial.enable_gpu
        (state_of (fresh path initial).store) =
      record {
        current_remote = refl;
        current_gpu = refl;
        previous_remote = λ s e. ground arith;
        previous_gpu = λ s e. ground arith;
      } in
    let (h, _) =
      run-HoldsIn _ initial requests (fresh path initial)
        (IsInstalledWith-IsKept initial.remote_control_enabled initial.enable_gpu) start
        (start, tt) in
    (h.current_remote, h.current_gpu)

load-succeeds :
    (file : Option Content) (s : Store)
    → Held IsValid file
    → (t : Store) × (load false file s ≡ ok t)
unfolding load
load-succeeds none s h = (s, refl)
load-succeeds (some malformed) s h = ground arith
load-succeeds (some (stored state)) s h = (store_of state, rw (h.current_valid, load) refl)

new_store-succeeds :
    (initial : Snapshot) (file : Option Content)
    → validate initial ≡ ok tt
    → Held IsValid file
    → (s : Store) × (new_store initial false file ≡ ok s)
unfolding new_store
new_store-succeeds initial file v h = rw (v, new_store) (load-succeeds file _ h)

-- From a first start with a valid snapshot, and after any run of requests and restarts, whichever
-- of their system calls fail: the agent can start again on the file that is there, and both its
-- snapshots are then valid and its outbox within its bound.
pub run-restarts :
    (path : String) (initial : Snapshot) (requests : List (Faults × Request))
    → validate initial ≡ ok tt
    → (s : Store) × (new_store initial false (run initial requests (fresh path initial)).disk.file
        ≡ ok s)
      × IsValid (state_of s)
run-restarts path initial requests v =
    let start : IsValid (state_of (fresh path initial).store) = record {
      current_valid = v;
      previous_valid = λ s e. ground arith;
      receipts_bounded = omega arith;
    } in
    let (_, held) =
      run-HoldsIn IsValid initial requests (fresh path initial) IsValid-IsKept start (start, tt) in
    let (s, e) =
      new_store-succeeds initial (run initial requests (fresh path initial)).disk.file v held in
    (s, e, new_store-Held IsValid initial false _ start held e)

-- ===== src/RuntimeConfig/Induction.antt =====
-- Predicates on the persisted state that no request can break, in memory and on disk
-- (core/runtimeconfig/store.go).
use komari_agent.Shared.{
  ℕ, ◌≤◌, ◌≡◌, refl, sym, subst, inl, inr, Bool, false, Option, none, some, List, [], ◌∷◌, ◌++◌,
  String, str_eq, arith, ◌==◌, Bool-cases, Option-cases, length, length-append, max,
}
use komari_agent.Shared.Results.{ok, Result-cases}
use komari_agent.RuntimeConfig.Model.{
  Snapshot, RuntimeConfig, DesiredConfig, validate, from_proto, snapshot_eq,
}
use komari_agent.RuntimeConfig.Store.{
  PersistedState, Content, stored, malformed, Store, World, Faults, install, add_receipt,
  acknowledge, prepare, apply_with_receipt, rollback, load, new_store,
}
use komari_agent.RuntimeConfig.Files.{state_of, Held, install-Installed, install-Held}
use komari_agent.RuntimeConfig.Requests.{
  Request, apply, roll_back, restart, restarted, perform, run,
}

-- What a desired snapshot takes over from the one that it replaces, and what it establishes.
from_proto-eq_ok :
    (base : Snapshot) (revision : ℕ) (value : RuntimeConfig) {next : Snapshot}
    → from_proto base revision value ≡ ok next
    → (next.revision ≡ revision)
      × (next.remote_control_enabled ≡ base.remote_control_enabled)
      × (next.enable_gpu ≡ base.enable_gpu)
      × (validate next ≡ ok tt)
unfolding from_proto
from_proto-eq_ok base revision value h = ground arith

-- What the tests of `ApplyWithReceipt` establish.
abbrev pub Prepared : DesiredConfig → String → Store → Snapshot → Type 0
Prepared desired receipt s next =
    (next.revision ≡ desired.revision)
    × (s.current.revision ≤ desired.revision)
    × (next.remote_control_enabled ≡ s.current.remote_control_enabled)
    × (next.enable_gpu ≡ s.current.enable_gpu)
    × (validate next ≡ ok tt)
    × (length (add_receipt receipt s.receipts) ≤ max 1024 (length s.receipts))

pub prepare-eq_ok :
    (desired : DesiredConfig) (receipt : String) (s : Store) {next : Snapshot}
    → prepare desired receipt s ≡ ok next
    → Prepared desired receipt s next
unfolding prepare
prepare-eq_ok desired receipt s {next} h = by_runtime desired.runtime refl
  where
    by_runtime : (o : Option RuntimeConfig) → desired.runtime ≡ o → Prepared desired receipt s next
    by_runtime none e = cc (rw (e, prepare) at h)
    by_runtime (some runtime) e = ground (
      arith,
      rw (e, prepare) at h,
      from_proto-eq_ok s.current desired.revision runtime {next = next},
      length-append s.receipts (receipt ∷ []),
    )

-- A predicate that every state that the operations write keeps.
pub record IsKept (P : PersistedState → Type 0) : Type 0 where
  pub applied :
      (desired : DesiredConfig) (receipt : String) (s : Store) (next : Snapshot)
      → prepare desired receipt s ≡ ok next
      → P (state_of s)
      → P (record {
        receipts = add_receipt receipt s.receipts;
        current = next;
        previous = some s.current;
      })
  pub acknowledged :
      (desired : DesiredConfig) (receipt : String) (s : Store) (next : Snapshot)
      → prepare desired receipt s ≡ ok next
      → str_eq receipt "" ≡ false
      → P (state_of s)
      → P (record {
        receipts = s.receipts ++ (receipt ∷ []);
        current = s.current;
        previous = s.previous;
      })
  pub returned :
      (s : Store) (previous : Snapshot)
      → s.previous ≡ some previous
      → P (state_of s)
      → P (record { receipts = s.receipts; current = previous; previous = some s.current })

abbrev pub HoldsIn : (PersistedState → Type 0) → World → Type 0
HoldsIn P w = P (state_of w.store) × Held P w.disk.file

install-HoldsIn :
    (P : PersistedState → Type 0) (f : Faults) (next : PersistedState) (w : World)
    → P next
    → HoldsIn P w
    → HoldsIn P (install f next w).1
install-HoldsIn P f next w n (h, held) = elim (install-Installed f next w).0 [
  | inl (_, e, _) ↦ (subst (λ s. P (state_of s)) (sym e) n, install-Held P f next w n held)
  | inr (_, e) ↦ (subst (λ s. P (state_of s)) (sym e) h, install-Held P f next w n held)
]

acknowledge-HoldsIn :
    (P : PersistedState → Type 0) (f : Faults) (next : Snapshot) (receipt : String) (w : World)
    → (str_eq receipt "" ≡ false
        → P (record {
          receipts = w.store.receipts ++ (receipt ∷ []);
          current = w.store.current;
          previous = w.store.previous;
        }))
    → HoldsIn P w
    → HoldsIn P (acknowledge f next receipt w).1
unfolding acknowledge
acknowledge-HoldsIn P f next receipt w n h = elim (Bool-cases (snapshot_eq next w.store.current)) [
  | inr e ↦ rw (e, acknowledge) h
  | inl e ↦
      rw (e, acknowledge)
        (elim (Bool-cases (str_eq receipt "")) [
          | inl r ↦ rw (r, acknowledge) h
          | inr r ↦ rw (r, acknowledge) (install-HoldsIn P f _ w (n r) h)
        ])
]

apply_with_receipt-HoldsIn :
    (P : PersistedState → Type 0) (f : Faults) (desired : DesiredConfig) (receipt : String)
    (w : World)
    → IsKept P
    → HoldsIn P w
    → HoldsIn P (apply_with_receipt f desired receipt w).1
unfolding apply_with_receipt
apply_with_receipt-HoldsIn P f desired receipt w k h =
    elim (Result-cases (prepare desired receipt w.store)) [
      | inr (_, e) ↦ rw (e, apply_with_receipt) h
      | inl (next, e) ↦
          rw (e, apply_with_receipt)
            (elim (Bool-cases (desired.revision == w.store.current.revision)) [
              | inl r ↦
                  rw (r, apply_with_receipt)
                    (acknowledge-HoldsIn P f next receipt w
                      (λ q. k.acknowledged desired receipt w.store next e q h.0) h)
              | inr r ↦
                  rw (r, apply_with_receipt)
                    (install-HoldsIn P f _ w (k.applied desired receipt w.store next e h.0) h)
            ])
    ]

rollback-HoldsIn :
    (P : PersistedState → Type 0) (f : Faults) (w : World)
    → IsKept P
    → HoldsIn P w
    → HoldsIn P (rollback f w).1
unfolding rollback
rollback-HoldsIn P f w k h = elim (Option-cases w.store.previous) [
  | inl e ↦ rw (e, rollback) h
  | inr (previous, e) ↦
      rw (e, rollback) (install-HoldsIn P f _ w (k.returned w.store previous e h.0) h)
]

-- A start that succeeds takes what the file holds, or the flags.
pub new_store-Held :
    (P : PersistedState → Type 0) (initial : Snapshot) (fails : Bool) (file : Option Content)
    {s : Store}
    → P (record { receipts = []; current = initial; previous = none })
    → Held P file
    → new_store initial fails file ≡ ok s
    → P (state_of s)
unfolding new_store load
new_store-Held P initial fails none n h e = ground arith
new_store-Held P initial fails (some malformed) n h e = ground arith
new_store-Held P initial fails (some (stored state)) n h e = ground arith

restarted-HoldsIn :
    (P : PersistedState → Type 0) (initial : Snapshot) (f : Faults) (w : World)
    → P (record { receipts = []; current = initial; previous = none })
    → HoldsIn P w
    → HoldsIn P (restarted initial f w)
unfolding restarted
restarted-HoldsIn P initial f w n h = elim (Result-cases (new_store initial f.read w.disk.file)) [
  | inr (_, e) ↦ rw (e, restarted) h
  | inl (s, e) ↦ rw (e, restarted) (new_store-Held P initial f.read w.disk.file n h.1 e, h.1)
]

perform-HoldsIn :
    (P : PersistedState → Type 0) (initial : Snapshot) (f : Faults) (r : Request) (w : World)
    → IsKept P
    → P (record { receipts = []; current = initial; previous = none })
    → HoldsIn P w
    → HoldsIn P (perform initial f r w)
unfolding perform
perform-HoldsIn P initial f (apply desired receipt) w k n h =
    apply_with_receipt-HoldsIn P f desired receipt w k h
perform-HoldsIn P initial f roll_back w k n h = rollback-HoldsIn P f w k h
perform-HoldsIn P initial f restart w k n h = restarted-HoldsIn P initial f w n h

pub run-HoldsIn :
    (P : PersistedState → Type 0) (initial : Snapshot) (requests : List (Faults × Request))
    (w : World)
    → IsKept P
    → P (record { receipts = []; current = initial; previous = none })
    → HoldsIn P w
    → HoldsIn P (run initial requests w)
unfolding run
run-HoldsIn P initial [] w k n h = h
run-HoldsIn P initial ((f, r) ∷ requests) w k n h =
    run-HoldsIn P initial requests (perform initial f r w) k n
      (perform-HoldsIn P initial f r w k n h)

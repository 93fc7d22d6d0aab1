-- ===== src/RuntimeConfig/Updates.antt =====
-- What one update or rollback of the runtime store does (core/runtimeconfig/store.go).
use komari_agent.Shared.{
  ◌≤◌, ◌≡◌, refl, ◌∙◌, ap, ◌⊎◌, inl, inr, some, String, str_eq, arith, ◌==◌, Bool-cases,
  Option-cases,
}
use komari_agent.Shared.Results.{ok, err, Result-cases}
use komari_agent.RuntimeConfig.Model.{Snapshot, DesiredConfig, ConfigError, snapshot_eq}
use komari_agent.RuntimeConfig.Store.{
  PersistedState, World, Faults, Outcome, install, acknowledge, prepare, apply_with_receipt,
  rollback,
}
use komari_agent.RuntimeConfig.Files.{install-Installed}
use komari_agent.RuntimeConfig.Induction.{prepare-eq_ok}

-- How an update ends: the desired revision is in force, valid and not older than the one before,
-- or memory is as it was.
abbrev pub Updated : DesiredConfig → World → Outcome → Type 0
Updated desired w o =
    ((o.0 ≡ ok tt)
      × (w.store.current.revision ≤ desired.revision)
      × (o.1.store.current.revision ≡ desired.revision))
    ⊎ (((e : ConfigError) × (o.0 ≡ err e)) × (o.1.store ≡ w.store))

install-Updated :
    (f : Faults) (next : PersistedState) (desired : DesiredConfig) (w : World)
    → next.current.revision ≡ desired.revision
    → w.store.current.revision ≤ desired.revision
    → Updated desired w (install f next w)
install-Updated f next desired w e le = elim (install-Installed f next w).0 [
  | inl (r, s, _) ↦ inl (r, le, ap (λ t. t.current.revision) s ∙ e)
  | inr h ↦ inr h
]

acknowledge-Updated :
    (f : Faults) (next : Snapshot) (receipt : String) (desired : DesiredConfig) (w : World)
    → w.store.current.revision ≡ desired.revision
    → w.store.current.revision ≤ desired.revision
    → Updated desired w (acknowledge f next receipt w)
unfolding acknowledge
acknowledge-Updated f next receipt desired w e le =
    elim (Bool-cases (snapshot_eq next w.store.current)) [
      | inr h ↦ rw (h, acknowledge) (inr ((_, refl), refl))
      | inl h ↦
          rw (h, acknowledge)
            (elim (Bool-cases (str_eq receipt "")) [
              | inl r ↦ rw (r, acknowledge) (inl (refl, le, e))
              | inr r ↦ rw (r, acknowledge) (install-Updated f _ desired w e le)
            ])
    ]

-- `ApplyWithReceipt` returns no error only if the desired revision is not older than the applied
-- one, and then the current snapshot has the desired revision; with an error, the current and the
-- previous snapshot and the receipts in memory are what they were.
pub apply_with_receipt_lem :
    (f : Faults) (desired : DesiredConfig) (receipt : String) (w : World)
    → ((apply_with_receipt f desired receipt w).0 ≡ ok tt
        × (w.store.current.revision ≤ desired.revision)
        × ((apply_with_receipt f desired receipt w).1.store.current.revision ≡ desired.revision))
      ⊎ (((e : ConfigError) × ((apply_with_receipt f desired receipt w).0 ≡ err e))
          × ((apply_with_receipt f desired receipt w).1.store ≡ w.store))
unfolding apply_with_receipt
apply_with_receipt_lem f desired receipt w = elim (Result-cases (prepare desired receipt w.store)) [
  | inr (x, e) ↦ rw (e, apply_with_receipt) (inr ((x, refl), refl))
  | inl (next, e) ↦
      let prepared = prepare-eq_ok desired receipt w.store e in
      rw (e, apply_with_receipt)
        (elim (Bool-cases (desired.revision == w.store.current.revision)) [
          | inl r ↦
              rw (r, apply_with_receipt)
                (acknowledge-Updated f next receipt desired w (ground arith) prepared.1)
          | inr r ↦ rw (r, apply_with_receipt) (install-Updated f _ desired w prepared.0 prepared.1)
        ])
]

rollback-ok :
    (f : Faults) (w : World)
    → (rollback f w).0 ≡ ok tt
    → (previous : Snapshot) × (w.store.previous ≡ some previous)
      × ((rollback f w).1.store ≡ record {
        current = previous;
        previous = some w.store.current;
        receipts = w.store.receipts;
      })
unfolding rollback
rollback-ok f w h = elim (Option-cases w.store.previous) [
  | inl e ↦ cc (rw (e, rollback) at h)
  | inr (previous, e) ↦
      let next : PersistedState = record {
        receipts = w.store.receipts;
        current = previous;
        previous = some w.store.current;
      } in
      elim (install-Installed f next w).0 [
        | inl (_, s, _) ↦ rw (e, rollback) (previous, refl, s)
        | inr ((x, bad), _) ↦ cc (rw (e, rollback) at h, bad)
      ]
]

-- Of two rollbacks in a row that both succeed, the first puts the previous snapshot in force and
-- keeps the current one as the previous, and the second leaves the snapshots and the receipts in
-- memory as they were before the first: it installs again what the first one took back.
pub rollback_twice :
    (f g : Faults) (w : World)
    → (rollback f w).0 ≡ ok tt
    → (rollback g (rollback f w).1).0 ≡ ok tt
    → (previous : Snapshot) × (w.store.previous ≡ some previous)
      × ((rollback f w).1.store ≡ record {
        current = previous;
        previous = some w.store.current;
        receipts = w.store.receipts;
      })
      × ((rollback g (rollback f w).1).1.store ≡ w.store)
rollback_twice f g w first second =
    let (p, has, e) = rollback-ok f w first in
    let (q, has', e') = rollback-ok g (rollback f w).1 second in (p, has, e, ground arith)

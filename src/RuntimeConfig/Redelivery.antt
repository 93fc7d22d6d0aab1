-- ===== src/RuntimeConfig/Redelivery.antt =====
-- A desired revision that is delivered again (core/runtimeconfig/store.go).
use komari_agent.Shared.{
  ℕ, ◌≡◌, refl, sym, subst, ap, ◌⊎◌, inl, inr, true, Option, none, some, List, [], ◌∷◌, String,
  str_eq, eq_refl, arith, ◌==◌, Bool-cases, ◌++◌,
}
use komari_agent.Shared.Results.{ok, Result-cases}
use komari_agent.Shared.Int.{ℤ}
use komari_agent.RuntimeConfig.Model.{
  Snapshot, RuntimeConfig, DesiredConfig, interval_of, from_proto, names_eq, interval_eq,
  snapshot_eq,
}
use komari_agent.RuntimeConfig.Files.{install-Installed}
use komari_agent.RuntimeConfig.Store.{
  PersistedState, add_receipt, install, Store, World, Faults, acknowledge, prepare,
  apply_with_receipt,
}
use komari_agent.RuntimeConfig.Induction.{prepare-eq_ok}

names_eq_refl : (xs : List String) → names_eq xs xs ≡ true
names_eq_refl [] = refl
names_eq_refl (x ∷ xs) = ground (arith, eq_refl x, names_eq_refl xs)

interval_eq_refl : (a : ℤ) → interval_eq a a ≡ true
interval_eq_refl a = ground arith

snapshot_eq_refl : (s : Snapshot) → snapshot_eq s s ≡ true
unfolding snapshot_eq
snapshot_eq_refl s = ground (
  arith,
  names_eq_refl s.include_nics,
  names_eq_refl s.exclude_nics,
  names_eq_refl s.include_mountpoints,
  interval_eq_refl s.report_interval,
)

-- A message sets the same fields however often it is applied.
from_proto-from_proto :
    (base : Snapshot) (revision : ℕ) (value : RuntimeConfig) {next : Snapshot}
    → from_proto base revision value ≡ ok next
    → from_proto next revision value ≡ ok next
unfolding from_proto interval_of
from_proto-from_proto base revision value {next} h = ground arith

prepare-prepare :
    (desired : DesiredConfig) (receipt : String) (s t : Store) {next : Snapshot}
    → prepare desired receipt s ≡ ok next
    → (t.current ≡ next) ⊎ (t.current ≡ s.current)
    → prepare desired "" t ≡ ok next
unfolding prepare
prepare-prepare desired receipt s t {next} h e = by_runtime desired.runtime refl
  where
    by_runtime : (o : Option RuntimeConfig) → desired.runtime ≡ o → prepare desired "" t ≡ ok next
    by_runtime none r = cc (rw (r, prepare) at h)
    by_runtime (some runtime) r =
        rw (r, prepare)
          (ground (
            arith,
            rw (r, prepare) at h,
            prepare-eq_ok desired receipt s h,
            from_proto-from_proto s.current desired.revision runtime {next = next},
          ))

-- A store that already has what is desired.
record IsSettled (desired : DesiredConfig) (s : Store) : Type 0 where
  next : Snapshot
  prepared : prepare desired "" s ≡ ok next
  same : snapshot_eq next s.current ≡ true
  revision : (desired.revision == s.current.revision) ≡ true

apply-IsSettled :
    (f : Faults) (desired : DesiredConfig) (w : World)
    → IsSettled desired w.store
    → apply_with_receipt f desired "" w ≡ (ok tt, w)
unfolding apply_with_receipt acknowledge
apply-IsSettled f desired w h =
    rw (h.prepared, apply_with_receipt)
      (rw (h.revision, apply_with_receipt) (rw (h.same, acknowledge) refl))

acknowledge-ok :
    (f : Faults) (next : Snapshot) (receipt : String) (w : World)
    → (acknowledge f next receipt w).0 ≡ ok tt
    → (snapshot_eq next w.store.current ≡ true)
      × ((acknowledge f next receipt w).1.store.current ≡ w.store.current)
unfolding acknowledge
acknowledge-ok f next receipt w h = elim (Bool-cases (snapshot_eq next w.store.current)) [
  | inr e ↦ cc (rw (e, acknowledge) at h)
  | inl e ↦ elim (Bool-cases (str_eq receipt "")) [
    | inl r ↦ rw (e, acknowledge) (rw (r, acknowledge) (refl, refl))
    | inr r ↦
        let next' : PersistedState = record {
          receipts = w.store.receipts ++ (receipt ∷ []);
          current = w.store.current;
          previous = w.store.previous;
        } in
        rw (e, acknowledge)
          (rw (r, acknowledge)
            (elim (install-Installed f next' w).0 [
              | inl (_, s, _) ↦ (refl, ap (λ t. t.current) s)
              | inr (_, s) ↦ (refl, ap (λ t. t.current) s)
            ]))
  ]
]

install-IsSettled :
    (f : Faults) (desired : DesiredConfig) (receipt : String) (w : World) {next : Snapshot}
    → prepare desired receipt w.store ≡ ok next
    → (install f
        (record {
          receipts = add_receipt receipt w.store.receipts;
          current = next;
          previous = some w.store.current;
        })
        w).0
      ≡ ok tt
    → IsSettled desired
        (install f
          (record {
            receipts = add_receipt receipt w.store.receipts;
            current = next;
            previous = some w.store.current;
          })
          w).1.store
install-IsSettled f desired receipt w {next} e h =
    let written : PersistedState = record {
      receipts = add_receipt receipt w.store.receipts;
      current = next;
      previous = some w.store.current;
    } in
    elim (install-Installed f written w).0 [
      | inr ((x, bad), _) ↦ ground arith
      | inl (_, s, _) ↦ subst (IsSettled desired) (sym s) (record {
        next = next;
        prepared = prepare-prepare desired receipt w.store _ e (inl refl);
        same = snapshot_eq_refl next;
        revision = ground (arith, prepare-eq_ok desired receipt w.store e);
      })
    ]

acknowledge-IsSettled :
    (f : Faults) (desired : DesiredConfig) (receipt : String) (w : World) {next : Snapshot}
    → prepare desired receipt w.store ≡ ok next
    → (desired.revision == w.store.current.revision) ≡ true
    → (acknowledge f next receipt w).0 ≡ ok tt
    → IsSettled desired (acknowledge f next receipt w).1.store
acknowledge-IsSettled f desired receipt w {next} e r h =
    let (same, current) = acknowledge-ok f next receipt w h in
    record {
      next = next;
      prepared = prepare-prepare desired receipt w.store _ e (inr current);
      same = subst (λ s. snapshot_eq next s ≡ true) (sym current) same;
      revision = subst (λ (s : Snapshot). (desired.revision == s.revision) ≡ true) (sym current) r;
    }

apply_with_receipt-IsSettled :
    (f : Faults) (desired : DesiredConfig) (receipt : String) (w : World)
    → (apply_with_receipt f desired receipt w).0 ≡ ok tt
    → IsSettled desired (apply_with_receipt f desired receipt w).1.store
unfolding apply_with_receipt
apply_with_receipt-IsSettled f desired receipt w h =
    elim (Result-cases (prepare desired receipt w.store)) [
      | inr (_, e) ↦ cc (rw (e, apply_with_receipt) at h)
      | inl (next, e) ↦ elim (Bool-cases (desired.revision == w.store.current.revision)) [
        | inl r ↦
            rw (e, apply_with_receipt)
              (rw (r, apply_with_receipt)
                (acknowledge-IsSettled f desired receipt w e r
                  (rw (e, r, apply_with_receipt) at h)))
        | inr r ↦
            rw (e, apply_with_receipt)
              (rw (r, apply_with_receipt)
                (install-IsSettled f desired receipt w e (rw (e, r, apply_with_receipt) at h)))
      ]
    ]

-- When a desired revision was applied without an error, applying it once more without a receipt,
-- whichever system calls would fail, returns no error and changes nothing, in memory or on disk.
pub apply_again :
    (f g : Faults) (desired : DesiredConfig) (receipt : String) (w : World)
    → (apply_with_receipt f desired receipt w).0 ≡ ok tt
    → apply_with_receipt g desired "" (apply_with_receipt f desired receipt w).1
      ≡ (ok tt, (apply_with_receipt f desired receipt w).1)
apply_again f g desired receipt w h =
    apply-IsSettled g desired (apply_with_receipt f desired receipt w).1
      (apply_with_receipt-IsSettled f desired receipt w h)

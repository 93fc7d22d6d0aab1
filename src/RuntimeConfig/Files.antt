-- ===== src/RuntimeConfig/Files.antt =====
-- What a write of the runtime state leaves in the file, whichever system call fails
-- (`persist` of core/runtimeconfig/store.go).
use komari_agent.Shared.{
  ◌≡◌, refl, sym, subst, ◌⊎◌, inl, inr, true, false, Option, none, some, String, str_eq, arith,
  Bool-cases,
}
use komari_agent.Shared.Results.{Result, ok, err, Result-cases}
use komari_agent.RuntimeConfig.Model.{ConfigError, io_failed}
use komari_agent.RuntimeConfig.Store.{
  PersistedState, Content, stored, malformed, Store, Disk, World, Faults, write_temporary,
  save_backup, replace_file, write_file, persist, Outcome, install,
}

-- What memory holds, as it is written.
abbrev pub state_of : Store → PersistedState
state_of s = record { receipts = s.receipts; current = s.current; previous = s.previous }

abbrev pub store_of : PersistedState → Store
store_of p = record { current = p.current; previous = p.previous; receipts = p.receipts }

-- A file that is missing, or that reads back as a state of a certain kind.
abbrev pub Held : (PersistedState → Type 0) → Option Content → Type 0
Held P none = Unit {0}
Held P (some (stored state)) = P state
Held P (some malformed) = ⊥

-- A write that succeeds stores the state; one that fails stores it or leaves the file.
abbrev Written : PersistedState → Option Content → Result ConfigError (Unit {0}) × Disk → Type 0
Written next old r =
    (r.0 ≡ ok tt × (r.1.file ≡ some (stored next)))
    ⊎ (((e : ConfigError) × (r.0 ≡ err e)) × ((r.1.file ≡ some (stored next)) ⊎ (r.1.file ≡ old)))

replace_file-Written :
    (f : Faults) (next : PersistedState) (d : Disk) → Written next d.file (replace_file f next d)
unfolding replace_file
replace_file-Written f next d = elim (Bool-cases f.rename) [
  | inl e ↦ rw e (inr ((io_failed, refl), inr refl))
  | inr e ↦ rw e (elim (Bool-cases f.sync_directory) [
    | inl s ↦ rw s (inr ((io_failed, refl), inl refl))
    | inr s ↦ rw s (inl (refl, refl))
  ])
]

save_backup-file : (f : Faults) (d : Disk) {d' : Disk} → save_backup f d ≡ ok d' → d'.file ≡ d.file
unfolding save_backup
save_backup-file f d h = ground arith

write_file-Written :
    (f : Faults) (next : PersistedState) (d : Disk) → Written next d.file (write_file f next d)
unfolding write_file
write_file-Written f next d = elim (Result-cases (write_temporary f)) [
  | inr (x, e) ↦ rw (e, write_file) (inr ((x, refl), inr refl))
  | inl (_, e) ↦
      rw (e, write_file)
        (elim (Result-cases (save_backup f d)) [
          | inr (x, s) ↦ rw (s, write_file) (inr ((x, refl), inr refl))
          | inl (d', s) ↦
              rw (s, write_file)
                (subst (λ old. Written next old (replace_file f next d')) (save_backup-file f d s)
                  (replace_file-Written f next d'))
        ])
]

-- How `install` can end: memory has the state, and the file too where there is one, or memory is
-- as before; what the file holds is the state, or what it held.
abbrev pub Installed : PersistedState → World → Outcome → Type 0
Installed next w o =
    (((o.0 ≡ ok tt)
        × (o.1.store ≡ store_of next)
        × (str_eq w.path "" ≡ false → o.1.disk.file ≡ some (stored next)))
      ⊎ (((e : ConfigError) × (o.0 ≡ err e)) × (o.1.store ≡ w.store)))
    × ((o.1.disk.file ≡ some (stored next)) ⊎ (o.1.disk.file ≡ w.disk.file))
    × (o.1.path ≡ w.path)

persist-on_path :
    (path : String) (f : Faults) (next : PersistedState) (d : Disk)
    → str_eq path "" ≡ false
    → persist path f next d ≡ write_file f next d
unfolding persist
persist-on_path path f next d h = rw h refl

persist-no_path :
    (path : String) (f : Faults) (next : PersistedState) (d : Disk)
    → str_eq path "" ≡ true
    → persist path f next d ≡ (ok tt, d)
unfolding persist
persist-no_path path f next d h = rw h refl

-- `Written`, where success stores the state only if there is a file.
abbrev Persisted :
    String → PersistedState → Option Content → Result ConfigError (Unit {0}) × Disk → Type 0
Persisted path next old r =
    (r.0 ≡ ok tt × (str_eq path "" ≡ false → r.1.file ≡ some (stored next))
      ⊎ ((e : ConfigError) × (r.0 ≡ err e)))
    × ((r.1.file ≡ some (stored next)) ⊎ (r.1.file ≡ old))

Written-Persisted :
    (path : String) (next : PersistedState) (old : Option Content)
    (r : Result ConfigError (Unit {0}) × Disk)
    → Written next old r
    → Persisted path next old r
Written-Persisted path next old r (inl (e, file)) = (inl (e, λ _. file), inl file)
Written-Persisted path next old r (inr (e, file)) = (inr e, file)

persist-Persisted :
    (path : String) (f : Faults) (next : PersistedState) (d : Disk)
    → Persisted path next d.file (persist path f next d)
persist-Persisted path f next d = elim (Bool-cases (str_eq path "")) [
  | inl p ↦
      subst (Persisted path next d.file) (sym (persist-no_path path f next d p))
        (inl (refl, λ q. ground arith), inr refl)
  | inr p ↦
      subst (Persisted path next d.file) (sym (persist-on_path path f next d p))
        (Written-Persisted path next d.file (write_file f next d) (write_file-Written f next d))
]

pub install-Installed :
    (f : Faults) (next : PersistedState) (w : World) → Installed next w (install f next w)
unfolding install
install-Installed f next w =
    let (h, file) = persist-Persisted w.path f next w.disk in
    elim h [
      | inl (e, on_file) ↦ rw (e, install) (inl (refl, refl, on_file), file, refl)
      | inr (x, e) ↦ rw (e, install) (inr ((x, refl), refl), file, refl)
    ]

-- What holds of the new state and of the file as it was holds of the file as it is.
pub install-Held :
    (P : PersistedState → Type 0) (f : Faults) (next : PersistedState) (w : World)
    → P next
    → Held P w.disk.file
    → Held P (install f next w).1.disk.file
install-Held P f next w n h = elim (install-Installed f next w).1 [
  | inl e ↦ subst (Held P) (sym e) n
  | inr e ↦ subst (Held P) (sym e) h
]

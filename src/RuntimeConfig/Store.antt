-- ===== src/RuntimeConfig/Store.antt =====
-- The operations of `Store` in core/runtimeconfig/store.go, over the snapshot in memory, the file
-- and its backup. The snapshot that an operation returns is the current one of the store it leaves.
use komari_agent.Shared.{
  ℕ, Bool, not, ◌&&◌, Option, none, some, List, [], ◌∷◌, ◌++◌, String, str_eq, ◌==◌, ltb, leb,
  if◌then◌else◌, length,
}
use komari_agent.Shared.Results.{Result, ok, err, ◌>>◌, reject_if}
use komari_agent.RuntimeConfig.Model.{
  Snapshot, DesiredConfig, ConfigError, desired_required, revision_zero, stale_revision,
  outbox_full, different_content, no_previous, io_failed, undecodable, validate, from_proto,
  snapshot_eq,
}

pub record PersistedState : Type 0 where
  pub receipts : List String
  pub current : Snapshot
  pub previous : Option Snapshot

-- The content of a file: what JSON reads back as a state, or what it does not read.
pub data Content : Type 0 where
  stored : PersistedState → Content
  malformed : Content

pub record Store : Type 0 where
  pub current : Snapshot
  pub previous : Option Snapshot
  pub receipts : List String

pub record Disk : Type 0 where
  pub file : Option Content
  pub backup : Option Content

-- `path` is that of the file; without one nothing is kept on disk.
pub record World : Type 0 where
  pub path : String
  pub store : Store
  pub disk : Disk

-- Which system calls of one `persist` fail; `backup` stands for those of `writeBackup`.
pub record Faults : Type 0 where
  pub make_directory : Bool
  pub create : Bool
  pub chmod : Bool
  pub write : Bool
  pub sync : Bool
  pub close : Bool
  pub read : Bool
  pub rename : Bool
  pub sync_directory : Bool
  pub backup : Bool

unfoldable pub write_temporary : Faults → Result ConfigError (Unit {0})
write_temporary f = do
  reject_if f.make_directory io_failed
  reject_if f.create io_failed
  reject_if f.chmod io_failed
  reject_if f.write io_failed
  reject_if f.sync io_failed
  reject_if f.close io_failed

-- The old file becomes the backup; without a file there is nothing to save. `backup` stands for a
-- failure of any call of `writeBackup`, all of which leave the old backup in place.
unfoldable pub save_backup : Faults → Disk → Result ConfigError Disk
save_backup f d = if f.read then err io_failed else elim d.file [
  | none ↦ ok d
  | some content ↦ if f.backup then err io_failed else ok (record d { backup = some content })
]

-- After the backup: the rename, and the flush of the directory.
unfoldable pub replace_file : Faults → PersistedState → Disk → Result ConfigError (Unit {0}) × Disk
replace_file f state d =
    if f.rename
    then (err io_failed, d)
    else (let d' : Disk = record d { file = some (stored state) } in
        if f.sync_directory then (err io_failed, d') else (ok tt, d'))

unfoldable pub write_file : Faults → PersistedState → Disk → Result ConfigError (Unit {0}) × Disk
write_file f state d = elim (write_temporary f) [
  | err e ↦ (err e, d)
  | ok _ ↦ elim (save_backup f d) [ err e ↦ (err e, d) | ok d' ↦ replace_file f state d' ]
]

unfoldable pub persist :
    String → Faults → PersistedState → Disk → Result ConfigError (Unit {0}) × Disk
persist path f state d = if str_eq path "" then (ok tt, d) else write_file f state d

abbrev pub Outcome : Type 0
Outcome = Result ConfigError (Unit {0}) × World

-- A state is persisted, and memory takes it over if that succeeds.
unfoldable pub install : Faults → PersistedState → World → Outcome
install f next w =
    let (r, d) = persist w.path f next w.disk in
    elim r [
      | err e ↦ (err e, record w { disk = d })
      | ok _ ↦ (
        ok tt,
        record {
          path = w.path;
          store = record {
            current = next.current;
            previous = next.previous;
            receipts = next.receipts;
          };
          disk = d;
        },
      )
    ]

abbrev pub receipt_capacity : ℕ
receipt_capacity = 1024

abbrev pub add_receipt : String → List String → List String
add_receipt receipt receipts = if str_eq receipt "" then receipts else receipts ++ (receipt ∷ [])

-- The part of `ApplyWithReceipt` for the revision that is applied already.
unfoldable pub acknowledge : Faults → Snapshot → String → World → Outcome
acknowledge f next receipt w =
    let s = w.store in
    if not (snapshot_eq next s.current)
    then (err different_content, w)
    else if str_eq receipt ""
    then (ok tt, w)
    else install f
        (record {
          receipts = s.receipts ++ (receipt ∷ []);
          current = s.current;
          previous = s.previous;
        })
        w

-- The tests of `ApplyWithReceipt`, and the snapshot that it desires. No receipt is the empty text.
unfoldable pub prepare : DesiredConfig → String → Store → Result ConfigError Snapshot
prepare desired receipt s = elim desired.runtime [
  | none ↦ err desired_required
  | some runtime ↦ do
    reject_if (desired.revision == 0) revision_zero
    reject_if (ltb desired.revision s.current.revision) stale_revision
    reject_if (not (str_eq receipt "") && leb receipt_capacity (length s.receipts)) outbox_full
    from_proto s.current desired.revision runtime
]

unfoldable pub apply_with_receipt : Faults → DesiredConfig → String → World → Outcome
apply_with_receipt f desired receipt w = elim (prepare desired receipt w.store) [
  | err e ↦ (err e, w)
  | ok next ↦
      if desired.revision == w.store.current.revision
      then acknowledge f next receipt w
      else install f
          (record {
            receipts = add_receipt receipt w.store.receipts;
            current = next;
            previous = some w.store.current;
          })
          w
]

unfoldable pub rollback : Faults → World → Outcome
rollback f w = elim w.store.previous [
  | none ↦ (err no_previous, w)
  | some previous ↦
      install f
        (record {
          receipts = w.store.receipts;
          current = previous;
          previous = some w.store.current;
        })
        w
]

-- `load`, where a read that fails otherwise than by a missing file is a fault.
unfoldable pub load : Bool → Option Content → Store → Result ConfigError Store
load fails none s = if fails then err io_failed else ok s
load fails (some malformed) s = if fails then err io_failed else err undecodable
load fails (some (stored state)) s = do
  reject_if fails io_failed
  validate state.current
  ok (record { current = state.current; previous = state.previous; receipts = state.receipts })

-- `New`: the initial snapshot is validated, and a file replaces it.
unfoldable pub new_store : Snapshot → Bool → Option Content → Result ConfigError Store
new_store initial fails file = do
  validate initial
  load fails file (record { current = initial; previous = none; receipts = [] })

-- ===== src/Privileged/Durability.antt =====
-- What `commit` guarantees of memory and disk (core/privileged/store.go).
use komari_agent.Shared.{
  ℕ, ◌≡◌, refl, sym, ◌≢◌, ◌⊎◌, inl, inr, true, false, some, String, arith, Bool-cases, Option-cases,
}
use komari_agent.Shared.Results.{Result, ok, err, Result-cases}
use komari_agent.Privileged.Model.{State}
use komari_agent.Privileged.Approval.{Error, stale_store, io_failed, encode_failed}
use komari_agent.Privileged.Commit.{
  Codec, World, Faults, Call, Outcome, file_hash, check_fresh, write_temporary, publish,
  write_state, commit, commit_result, no_faults,
}

-- The process knows the file as it is: its hash is the hash of the content on disk.
abbrev pub IsSynced : Codec → World → Type 0
IsSynced codec w = w.store.disk_hash ≡ file_hash codec w.file

-- How a call that would commit the state `next` can end.
pub data Ends (c : Call) (next : State) (w : World) (o : Outcome) : Type 0 where
  committed :
      (content : String)
      → c.codec.encode (record next { updated_at = c.now }) ≡ some content
      → o ≡ (
        ok tt,
        record {
          store = record {
            state = record next { updated_at = c.now };
            disk_hash = c.codec.digest content;
          };
          file = some content;
        },
      )
      → Ends c next w o
  failed : (e : Error) → o ≡ (err e, w) → Ends c next w o
  unflushed :
      (content : String)
      → c.codec.encode (record next { updated_at = c.now }) ≡ some content
      → c.faults.sync_directory ≡ true
      → o ≡ (err io_failed, record w { file = some content })
      → Ends c next w o

publish-Ends :
    (c : Call) (next : State) (content : String) (w : World)
    → c.codec.encode (record next { updated_at = c.now }) ≡ some content
    → Ends c next w (publish c (record next { updated_at = c.now }) content w)
unfolding publish
publish-Ends c next content w e = elim (Bool-cases c.faults.sync_directory) [
  | inl bad ↦ unflushed content e bad (rw bad)
  | inr good ↦ committed content e (rw good)
]

write_state-Ends :
    (c : Call) (next : State) (w : World)
    → Ends c next w (write_state c (record next { updated_at = c.now }) w)
unfolding write_state
write_state-Ends c next w =
    elim (Option-cases (c.codec.encode (record next { updated_at = c.now }))) [
      | inl e ↦ failed encode_failed (rw (e, write_state))
      | inr (content, e) ↦ elim (Result-cases (write_temporary c.faults)) [
        | inl (_, t) ↦ rw (e, write_state) (rw (t, write_state) (publish-Ends c next content w e))
        | inr (x, t) ↦ failed x (rw (e, write_state) (rw (t, write_state)))
      ]
    ]

-- A commit ends in one of three ways.
pub commit-Ends : (c : Call) (next : State) (w : World) → Ends c next w (commit c next w)
unfolding commit
commit-Ends c next w = elim (Result-cases (check_fresh c w)) [
  | inl (_, t) ↦ rw (t, commit) (write_state-Ends c next w)
  | inr (e, t) ↦ failed e (rw (t, commit))
]

-- A commit either succeeds, and then memory holds the new state with the time of the write, the
-- file holds its encoding and the process knows the file's hash; or it returns an error, memory is
-- as before, and so is the file unless the flush of the directory was what failed.
pub commit_atomic :
    (c : Call) (next : State) (w : World)
    → let (r, w') = commit c next w in
      ((r ≡ ok tt)
        × (w'.store.state ≡ record next { updated_at = c.now })
        × (w'.file ≡ c.codec.encode w'.store.state)
        × IsSynced c.codec w')
      ⊎ ((e : Error) × (r ≡ err e)
          × (w'.store ≡ w.store)
          × (c.faults.sync_directory ≡ false → w'.file ≡ w.file))
unfolding file_hash
commit_atomic c next w = by_end (commit-Ends c next w)
  where
    by_end :
        {o : Outcome}
        → Ends c next w o
        → ((o.0 ≡ ok tt)
            × (o.1.store.state ≡ record next { updated_at = c.now })
            × (o.1.file ≡ c.codec.encode o.1.store.state)
            × IsSynced c.codec o.1)
          ⊎ ((e : Error) × (o.0 ≡ err e)
              × (o.1.store ≡ w.store)
              × (c.faults.sync_directory ≡ false → o.1.file ≡ w.file))
    by_end (committed content e p) = inl (rw p, rw p, rw (p, e), rw p)
    by_end (failed e p) = inr (e, rw p, rw p, λ _. rw p)
    by_end (unflushed content e bad p) = inr (io_failed, rw p, rw p, λ good. cc)

-- When the file changed under the process, a commit that can lock and read it is refused as stale,
-- and changes neither memory nor the file.
pub commit_stale :
    (c : Call) (next : State) (w : World)
    → ¬ IsSynced c.codec w
    → c.faults.lock ≡ false
    → c.faults.read ≡ false
    → commit c next w ≡ (err stale_store, w)
unfolding commit check_fresh
commit_stale c next w changed lock read =
    ground (arith, λ (e : w.store.disk_hash ≡ file_hash c.codec w.file). changed e)

-- A commit of a process that does not know the file as it is never changes the file.
commit_desynced :
    (c : Call) (next : State) (w : World) → ¬ IsSynced c.codec w → (commit c next w).1 ≡ w
unfolding commit check_fresh
commit_desynced c next w changed =
    ground (arith, λ (e : w.store.disk_hash ≡ file_hash c.codec w.file). changed e)

-- Every system call succeeds but the flush of the directory after the rename.
abbrev pub only_flush_fails : Faults
only_flush_fails = record no_faults { sync_directory = true }

commit_unflushed :
    (c : Call) (next : State) (w : World) {content : String}
    → c.faults ≡ only_flush_fails
    → IsSynced c.codec w
    → c.codec.encode (record next { updated_at = c.now }) ≡ some content
    → commit c next w ≡ (err io_failed, record w { file = some content })
unfolding commit check_fresh write_state write_temporary publish
commit_unflushed c next w fault synced e = ground arith

-- When only the flush of the directory fails, the new file is in place while memory is not updated.
-- If the file's new hash is not the one that the process knows, every later commit of this process,
-- under any faults, has no effect on memory or file.
pub unflushed_wedges :
    (c : Call) (next : State) (w : World) {content : String} (faults : Faults) (now : ℕ)
    (later : State)
    → c.faults ≡ only_flush_fails
    → IsSynced c.codec w
    → c.codec.encode (record next { updated_at = c.now }) ≡ some content
    → c.codec.digest content ≢ w.store.disk_hash
    → let w' = (commit c next w).1 in
      (w'.file ≡ some content)
      × (w'.store ≡ w.store)
      × ((commit (record c { faults = faults; now = now }) later w').1 ≡ w')
unfolding file_hash
unflushed_wedges c next w {content} faults now later fault synced e ne =
    rw (commit_unflushed c next w fault synced e) (
      refl,
      refl,
      commit_desynced (record c { faults = faults; now = now }) later
          (record w { file = some content }) λ h. ne (sym h),
    )

-- A predicate of the state that ignores the time of the write survives a method, if the state that
-- the method prepares has it.
pub commit_result_keeps :
    (P : State → Type 0)
    → ((s : State) (t : ℕ) → P s → P (record s { updated_at = t }))
    → (c : Call) (r : Result Error State) (w : World) → ((next : State) → r ≡ ok next → P next)
    → P w.store.state
    → P (commit_result c r w).1.store.state
unfolding commit_result
commit_result_keeps P stable c (err e) w good h = h
commit_result_keeps P stable c (ok next) w good h = by_end (commit-Ends c next w)
  where
    by_end : {o : Outcome} → Ends c next w o → P o.1.store.state
    by_end (committed content e p) = rw p (stable next c.now (good next refl))
    by_end (failed e p) = rw p h
    by_end (unflushed content e bad p) = rw p h

-- A method that succeeds has prepared a state, and memory holds it.
pub commit_result-eq_ok :
    (c : Call) (r : Result Error State) (w : World)
    → (commit_result c r w).0 ≡ ok tt
    → (next : State) × (r ≡ ok next)
      × ((commit_result c r w).1.store.state ≡ record next { updated_at = c.now })
      × IsSynced c.codec (commit_result c r w).1
unfolding commit_result
commit_result-eq_ok c (err e) w h = cc
commit_result-eq_ok c (ok next) w h = elim (commit_atomic c next w) [
  | inl p ↦ (next, refl, p.1, p.3)
  | inr p ↦ absurd (cc (p.1, h))
]

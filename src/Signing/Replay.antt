-- ===== src/Signing/Replay.antt =====
-- `ReplayGuard` of core/signing/replay.go: the nonces that were accepted, in memory and in a file.
-- A time is a number of nanoseconds, 0 for the zero time; `now` is what `time.Now` returns.
use komari_agent.Shared.{
  ℕ, zero, suc, Bool, true, false, not, ◌||◌, Option, none, some, [], ◌∷◌, String, str_eq, ltb,
  ◌==◌, if◌then◌else◌, is_some, length, keep,
}
use komari_agent.Shared.Results.{Result, ok, err, ◌>>◌, reject_if}
use komari_agent.Shared.Texts.{trim_space}
use komari_agent.Shared.Maps.{Dict, lookup, insert, erase}

pub data ReplayError : Type 0 where
  no_nonce unavailable already_used no_expiry not_recorded : ReplayError

-- The content of the file, as JSON reads it: a map of nonces, a null, or what does not decode. The
-- standard library's encoder writes a map and its decoder gives the same map back.
pub data Document : Type 0 where
  object : Dict ℕ → Document
  null : Document
  malformed : Document

-- `json.Unmarshal`: nothing on an error, and a null map for a null.
abbrev pub decode : Document → Option (Option (Dict ℕ))
decode (object m) = some (some m)
decode null = some none
decode malformed = none

-- The guard with the content of its file.
pub record ReplayGuard : Type 0 where
  pub entries : Dict ℕ
  pub loaded : Bool
  pub file : Option Document

-- Which system calls of one call fail; a read error is not the absence of the file.
pub record GuardFaults : Type 0 where
  pub read : Bool
  pub make_directory : Bool
  pub create : Bool
  pub chmod : Bool
  pub write : Bool
  pub sync : Bool
  pub close : Bool
  pub rename : Bool

-- `NewReplayGuard`, over a file that may exist already.
abbrev pub new_replay_guard : Option Document → ReplayGuard
new_replay_guard file = record { entries = []; loaded = false; file = file }

abbrev pub use_stored : ReplayGuard → Option (Dict ℕ) → ReplayGuard
use_stored g none = record g { loaded = true }
use_stored g (some stored) = record g { entries = stored; loaded = true }

-- What `load` leaves, and whether it failed.
unfoldable pub load : GuardFaults → ReplayGuard → ReplayGuard × Bool
load f g = if g.loaded then (g, true) else if f.read then (g, false) else elim g.file [
  | none ↦ (record g { loaded = true }, true)
  | some content ↦ elim (decode content) [
    | none ↦ (g, false)
    | some stored ↦ (use_stored g stored, true)
  ]
]

abbrev pub maximum_entries : ℕ
maximum_entries = 4096

-- The first loop of `pruneLocked`: an entry goes once the time is after its expiry.
unfoldable pub drop_expired : ℕ → Dict ℕ → Dict ℕ
drop_expired now = keep (λ e. not (ltb e.1 now))

-- The search for the entry that expires first; the empty text stands for none found yet.
unfoldable pub find_oldest : String → ℕ → Dict ℕ → String
find_oldest oldest expiry [] = oldest
find_oldest oldest expiry ((nonce, e) ∷ m) =
    let found = str_eq oldest "" || ltb e expiry in
    find_oldest (if found then nonce else oldest) (if found then e else expiry) m

-- The second loop of `pruneLocked`. A round removes an entry, so the length is fuel enough.
unfoldable pub evict : ℕ → Dict ℕ → Dict ℕ
unfolding find_oldest
evict zero m = m
evict (suc fuel) m =
    let oldest = find_oldest "" 0 m in
    let rest = evict fuel (erase oldest m) in
    if ltb maximum_entries (length m) then (if str_eq oldest "" then m else rest) else m

unfoldable pub prune : ℕ → Dict ℕ → Dict ℕ
prune now m = let live = drop_expired now m in evict (length live) live

-- `persistLocked`, up to the rename.
unfoldable pub persist : GuardFaults → Result ReplayError (Unit {0})
persist f = do
  reject_if f.make_directory not_recorded
  reject_if f.create not_recorded
  reject_if f.chmod not_recorded
  reject_if f.write not_recorded
  reject_if f.sync not_recorded
  reject_if f.close not_recorded
  reject_if f.rename not_recorded

abbrev pub GuardOutcome : Type 0
GuardOutcome = Result ReplayError (Unit {0}) × ReplayGuard

-- The nonce is entered, then written; a failed write takes it out again.
unfoldable pub record_nonce : GuardFaults → String → ℕ → ReplayGuard → GuardOutcome
unfolding persist
record_nonce f nonce expires_at g =
    let entries = insert nonce expires_at g.entries in
    elim (persist f) [
      | ok _ ↦ (ok tt, record g { entries = entries; file = some (object entries) })
      | err e ↦ (err e, record g { entries = erase nonce entries })
    ]

-- `Consume` after the load, on the trimmed nonce.
unfoldable pub consume_loaded : GuardFaults → ℕ → String → ℕ → ReplayGuard → GuardOutcome
consume_loaded f now nonce expires_at g =
    let pruned = record g { entries = prune now g.entries } in
    if is_some (lookup nonce pruned.entries)
    then (err already_used, pruned)
    else if expires_at == 0
    then (err no_expiry, pruned)
    else record_nonce f nonce expires_at pruned

unfoldable pub consume : GuardFaults → ℕ → String → ℕ → ReplayGuard → GuardOutcome
consume f now nonce expires_at g =
    let trimmed = trim_space nonce in
    if str_eq trimmed ""
    then (err no_nonce, g)
    else (let (g', done) = load f g in
        if done then consume_loaded f now trimmed expires_at g' else (err unavailable, g'))

-- `Seen`: a record that cannot be read answers that the nonce was seen.
unfoldable pub seen : GuardFaults → ℕ → String → ReplayGuard → Bool × ReplayGuard
seen f now nonce g =
    let (g', done) = load f g in
    if done
    then (let pruned = record g' { entries = prune now g'.entries } in
        (is_some (lookup (trim_space nonce) pruned.entries), pruned))
    else (true, g')

-- ===== src/Credentials/Store.antt =====
-- `Store` of core/credentials/store.go: the identity in memory and its file. `clone` copies a value,
-- which a model of values does not tell from the value. The clock and the new request ID are
-- arguments.
use komari_agent.Shared.{
  ℕ, ◌+◌, ◌%◌, ◌^◌, Bool, false, not, ◌&&◌, ◌||◌, Option, none, some, List, [], ◌∷◌, String, str_eq,
  ◌==◌, if◌then◌else◌,
}
use komari_agent.Shared.Results.{Result, ok, err, ◌>>◌, reject_if}
use komari_agent.Signing.Verify.{PinnedKey}
use komari_agent.Credentials.Model.{
  CredentialError, not_enrolled, commit_conflict, generation_skipped, io_failed, undecodable,
  RefreshAttempt, Identity,
}

-- The content of the file: an identity, or what JSON does not read.
pub data Content : Type 0 where
  stored : Identity → Content
  malformed : Content

pub record World : Type 0 where
  pub identity : Option Identity
  pub file : Option Content

-- Which system calls of one operation fail.
pub record Faults : Type 0 where
  pub read : Bool
  pub encode : Bool
  pub make_directory : Bool
  pub create : Bool
  pub chmod : Bool
  pub write : Bool
  pub sync : Bool
  pub close : Bool
  pub rename : Bool
  pub sync_directory : Bool
  pub remove : Bool

abbrev pub Done : Type 0
Done = Result CredentialError (Unit {0})

-- Before the rename: a failure leaves the file as it was.
unfoldable pub write_temporary : Faults → Done
write_temporary f = do
  reject_if f.encode io_failed
  reject_if f.make_directory io_failed
  reject_if f.create io_failed
  reject_if f.chmod io_failed
  reject_if f.write io_failed
  reject_if f.sync io_failed
  reject_if f.close io_failed
  reject_if f.rename io_failed

unfoldable pub persist : Faults → Identity → Option Content → Done × Option Content
persist f i file = elim (write_temporary f) [
  | err e ↦ (err e, file)
  | ok _ ↦ (if f.sync_directory then err io_failed else ok tt, some (stored i))
]

-- Memory takes an identity over if it was persisted.
abbrev pub take_over : Identity → World → Done × Option Content → Done × World
take_over next w (err e, file) = (err e, record w { file = file })
take_over next w (ok _, file) = (ok tt, record { identity = some next; file = file })

unfoldable pub install : Faults → Identity → World → Done × World
install f next w = take_over next w (persist f next w.file)

-- `Open`
unfoldable pub open_store : Faults → Option Content → Result CredentialError (Option Identity)
open_store f none = if f.read then err io_failed else ok none
open_store f (some malformed) = if f.read then err io_failed else err undecodable
open_store f (some (stored i)) = if f.read then err io_failed else ok (some i)

-- `Enrolled`
abbrev pub is_enrolled : World → Bool
is_enrolled w = elim w.identity [
  | none ↦ false
  | some i ↦ not (str_eq i.agent_id "") && not (str_eq i.refresh_token "")
]

unfoldable pub save : Faults → ℕ → Identity → World → Done × World
save f now i w =
    let enrolled_at = if i.enrolled_at == 0 then now else i.enrolled_at in
    install f (record i { updated_at = now; enrolled_at = enrolled_at }) w

-- The arguments of `UpdateCredentials`.
pub record Issue : Type 0 where
  pub agent_id : String
  pub access_token : String
  pub access_expiry : ℕ
  pub refresh_token : String
  pub refresh_expiry : ℕ
  pub scopes : List String

-- An empty refresh token or list of scopes keeps the old one.
abbrev pub with_issue : ℕ → Issue → Identity → Identity
with_issue now c i =
    let keeps = str_eq c.refresh_token "" in
    let agent_id = if str_eq c.agent_id "" then i.agent_id else c.agent_id in
    let refresh_token = if keeps then i.refresh_token else c.refresh_token in
    let refresh_expiry = if keeps then i.refresh_token_expires_at else c.refresh_expiry in
    let scopes : List String = elim c.scopes [ [] ↦ i.scopes | s ∷ rest ↦ s ∷ rest ] in
    record i {
      agent_id = agent_id;
      access_token = c.access_token;
      access_token_expires_at = c.access_expiry;
      refresh_token = refresh_token;
      refresh_token_expires_at = refresh_expiry;
      scopes = scopes;
      updated_at = now;
    }

unfoldable pub update_credentials : Faults → ℕ → Issue → World → Done × World
update_credentials f now c w = elim w.identity [
  | none ↦ (err not_enrolled, w)
  | some i ↦ install f (with_issue now c i) w
]

-- What `PinTrustBundle` records.
pub record Trust : Type 0 where
  pub keys : List PinnedKey
  pub algorithms : List ℕ
  pub require_all : Bool
  pub minimum : ℕ

abbrev pub with_trust : Trust → Identity → Identity
with_trust t i = record i {
  control_plane_keys = t.keys;
  policy_algorithms = t.algorithms;
  policy_require_all = t.require_all;
  policy_minimum_signatures = t.minimum;
}

unfoldable pub pin_trust_bundle : Faults → ℕ → Trust → World → Done × World
pin_trust_bundle f now t w = elim w.identity [
  | none ↦ (err not_enrolled, w)
  | some i ↦ install f (record (with_trust t i) { updated_at = now }) w
]

-- A file that is missing already is no failure.
unfoldable pub clear : Faults → World → Done × World
clear f w =
    if f.remove then (err io_failed, w) else (ok tt, record { identity = none; file = none })

abbrev pub with_pending : ℕ → String → Identity → Identity
with_pending now new_id i = record i {
  pending_refresh = some (record { request_id = new_id; started_at = now });
  updated_at = now;
}

-- What a call returns after it installed an identity.
abbrev pub answer : Identity → Done × World → Result CredentialError Identity × World
answer i (err e, w) = (err e, w)
answer i (ok _, w) = (ok i, w)

-- A pending refresh is used again; a new one is recorded before any request leaves the host.
unfoldable pub begin_identity :
    Faults
    → Option RefreshAttempt
    → Identity
    → Identity
    → World
    → Result CredentialError Identity × World
begin_identity f (some _) next i w = (ok i, w)
begin_identity f none next i w = answer next (install f next w)

-- `BeginRefresh`
unfoldable pub begin_refresh : Faults → ℕ → String → World → Result CredentialError Identity × World
begin_refresh f now new_id w = elim w.identity [
  | none ↦ (err not_enrolled, w)
  | some i ↦
      if str_eq i.refresh_token ""
      then (err not_enrolled, w)
      else begin_identity f i.pending_refresh (with_pending now new_id i) i w
]

abbrev pub same_attempt : Option RefreshAttempt → Option RefreshAttempt → Bool
same_attempt (some a) (some b) = str_eq a.request_id b.request_id
same_attempt _ _ = false

-- What a result has to agree with, as `CommitRefresh` tests it. A generation is 64 bits wide.
unfoldable pub has_conflict : Identity → Identity → Identity → Bool
has_conflict before after i =
    not (same_attempt i.pending_refresh before.pending_refresh)
    || not (str_eq i.refresh_token before.refresh_token)
    || not (str_eq i.agent_id before.agent_id)
    || not (str_eq after.agent_id before.agent_id)

abbrev pub next_generation : ℕ → ℕ
next_generation n = (n + 1) % 2 ^ 64

abbrev pub skips : Option ℕ → ℕ → Bool
skips none g = false
skips (some n) g = not (g == next_generation n)

unfoldable pub check_generation : Identity → Identity → Identity → Option ℕ → Done
check_generation before after i none = err commit_conflict
check_generation before after i (some g) = do
  reject_if (has_conflict before after i) commit_conflict
  reject_if (skips before.generation g) generation_skipped

abbrev pub check_result : Identity → Identity → Identity → Done
check_result before after i = check_generation before after i after.generation

abbrev pub committed : ℕ → Identity → Identity → Identity
committed now after i = record after {
  pending_refresh = none;
  enrolled_at = i.enrolled_at;
  updated_at = now;
}

-- `CommitRefresh`
unfoldable pub commit_refresh : Faults → ℕ → Identity → Identity → World → Done × World
commit_refresh f now before after w = elim w.identity [
  | none ↦ (err commit_conflict, w)
  | some i ↦ elim (check_result before after i) [
    | err e ↦ (err e, w)
    | ok _ ↦ install f (committed now after i) w
  ]
]

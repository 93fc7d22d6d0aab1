-- ===== src/Privileged/Commit.antt =====
-- `Store`, `Open` and `commit` of core/privileged/store.go, over a file that other writers share.
use komari_agent.Shared.{ℕ, Bool, false, not, Option, none, some, List, String, ◌==◌, if◌then◌else◌}
use komari_agent.Shared.Results.{Result, ok, err, ◌>>◌, reject_if}
use komari_agent.Privileged.Model.{Authorization, Revision, State}
use komari_agent.Privileged.Approval.{Error, io_failed, stale_store, encode_failed}

-- What the package calls outside the repository: SHA-256 (over a file's content, as a number, and
-- in hexadecimal over the bytes of the settings), the JSON and protobuf encoders and `proto.Equal`.
pub record Codec : Type 0 where
  pub digest : String → ℕ
  pub sha256_hex : List ℕ → String
  pub encode : State → Option String
  pub decode : String → Option State
  pub marshal : Revision → Option String
  pub same_authorization : Option Authorization → Option Authorization → Bool

pub record Store : Type 0 where
  pub state : State
  pub disk_hash : ℕ

-- The process's store, and the content of the state file.
pub record World : Type 0 where
  pub store : Store
  pub file : Option String

-- Which system calls of one `commit` fail.
pub record Faults : Type 0 where
  pub lock : Bool
  pub read : Bool
  pub make_directory : Bool
  pub create : Bool
  pub chmod : Bool
  pub write : Bool
  pub sync : Bool
  pub close : Bool
  pub rename : Bool
  pub sync_directory : Bool

abbrev pub no_faults : Faults
no_faults = record {
  lock = false;
  read = false;
  make_directory = false;
  create = false;
  chmod = false;
  write = false;
  sync = false;
  close = false;
  rename = false;
  sync_directory = false;
}

abbrev pub Outcome : Type 0
Outcome = Result Error (Unit {0}) × World

-- What a call knows of its surroundings: the codec, its system calls and the clock.
pub record Call : Type 0 where
  pub codec : Codec
  pub faults : Faults
  pub now : ℕ

-- The hash of a missing file is the zero array.
unfoldable pub file_hash : Codec → Option String → ℕ
file_hash codec none = 0
file_hash codec (some content) = codec.digest content

-- The lock, the read and the comparison with the hash that this process last saw.
unfoldable pub check_fresh : Call → World → Result Error (Unit {0})
unfolding file_hash
check_fresh c w = do
  reject_if c.faults.lock io_failed
  reject_if c.faults.read io_failed
  reject_if (not (file_hash c.codec w.file == w.store.disk_hash)) stale_store

-- The temporary file, from its directory up to the rename.
unfoldable pub write_temporary : Faults → Result Error (Unit {0})
write_temporary f = do
  reject_if f.make_directory io_failed
  reject_if f.create io_failed
  reject_if f.chmod io_failed
  reject_if f.write io_failed
  reject_if f.sync io_failed
  reject_if f.close io_failed
  reject_if f.rename io_failed

-- After the rename: the file is replaced, and the store follows if the directory is flushed.
unfoldable pub publish : Call → State → String → World → Outcome
publish c next content w =
    if c.faults.sync_directory then (err io_failed, record w { file = some content }) else (
      ok tt,
      record {
        store = record { state = next; disk_hash = c.codec.digest content };
        file = some content;
      },
    )

unfoldable pub write_state : Call → State → World → Outcome
unfolding write_temporary publish
write_state c next w = elim (c.codec.encode next) [
  | none ↦ (err encode_failed, w)
  | some content ↦ elim (write_temporary c.faults) [
    | err e ↦ (err e, w)
    | ok _ ↦ publish c next content w
  ]
]

unfoldable pub commit : Call → State → World → Outcome
unfolding check_fresh write_state
commit c next w = elim (check_fresh c w) [
  | err e ↦ (err e, w)
  | ok _ ↦ write_state c (record next { updated_at = c.now }) w
]

-- The methods compute the next state, or an error, and commit it.
unfoldable pub commit_result : Call → Result Error State → World → Outcome
commit_result c (err e) w = (err e, w)
commit_result c (ok next) w = commit c next w

-- `Open`: a missing file is the state that is given, the zero value; the read may fail.
unfoldable pub open_store : Codec → Bool → State → Option String → Result Error Store
open_store codec fails zero_state none =
    if fails then err io_failed else ok (record { state = zero_state; disk_hash = 0 })
open_store codec fails zero_state (some content) =
    if fails then err io_failed else elim (codec.decode content) [
      | none ↦ err encode_failed
      | some s ↦ ok (record { state = s; disk_hash = codec.digest content })
    ]

-- ===== src/Uploads/Chunks.antt =====
-- The upload sessions and their part files: `writeUploadStreamChunk` (files/stream.go),
-- `commitFileUpload` and `cancelFileUpload` (files/ops.go). A file is its size and the byte at each
-- position. What `filepath` makes of paths is a parameter. Each call runs on its own here: the
-- agent lets chunks of one upload write at the same time, at their own offsets.
use komari_agent.Shared.{
  ℕ, ◌+◌, ◌-◌, Bool, not, ◌&&◌, ◌||◌, none, some, List, [], ◌∷◌, String, str_eq, ◌==◌, ltb, leb,
  if◌then◌else◌, any, length, min, max, from_option,
}
use komari_agent.Shared.Maps.{Dict, lookup, insert, erase}
use komari_agent.Shared.Results.{Result, ok, err, ◌>>◌, reject_if}
use komari_agent.Shared.Texts.{trim_space}
use komari_agent.Shared.Int.{pos, pos_part, ltb_ℤ}
use komari_agent.Uploads.Spec.{
  UploadError, no_upload_id, no_file, invalid_metadata, chunk_size_out_of_range, count_mismatch,
  unknown_session, other_target, other_total, other_chunk_size, other_count, incomplete,
  no_part_file, too_short, io_failed, truncated_stream, cancelled, Args, UploadSpec, is_no_file,
  chunk_size_of, has_bad_chunk_size, has_bad_count,
}

pub record Paths : Type 0 where
  pub clean : String → String
  pub part_path : String → String → String

pub record FileData : Type 0 where
  pub size : ℕ
  pub byte : ℕ → ℕ

abbrev pub empty_file : FileData
empty_file = record { size = 0; byte = λ _. 0 }

-- `uploadChunkState`, less its time of change, which is not read.
pub record Session : Type 0 where
  pub size : ℕ
  pub expected_size : ℕ
  pub chunk_size : ℕ
  pub target_path : String
  pub parts : List ℕ
  pub part_count : ℕ
  pub temp_path : String

pub record World : Type 0 where
  pub sessions : Dict Session
  pub files : Dict FileData

-- The stream of a chunk: the bytes that arrive before it ends.
pub record Body : Type 0 where
  pub byte : ℕ → ℕ
  pub available : ℕ

pub record Faults : Type 0 where
  pub create : Bool
  pub close_new : Bool
  pub open_part : Bool
  pub copy : Bool
  pub sync : Bool
  pub close : Bool

abbrev pub contains : ℕ → List ℕ → Bool
contains n xs = any (λ m. m == n) xs

-- A key of a map that is a set.
abbrev pub add_part : ℕ → List ℕ → List ℕ
add_part n xs = if contains n xs then xs else n ∷ xs

abbrev pub new_session : Paths → UploadSpec → Session
new_session paths spec = record {
  size = 0;
  expected_size = spec.total_size;
  chunk_size = spec.chunk_size;
  target_path = spec.path;
  parts = [];
  part_count = spec.chunk_count;
  temp_path = paths.part_path spec.path spec.upload_id;
}

-- The session of a chunk; the first chunk of an upload starts one, with an empty part file.
unfoldable pub open_session :
    Paths → Faults → UploadSpec → World → Result UploadError Session × World
open_session paths f spec w = elim (lookup spec.upload_id w.sessions) [
  | some state ↦ (ok state, w)
  | none ↦
      if not spec.first
      then (err unknown_session, w)
      else if f.create
      then (err io_failed, w)
      else (let files = insert (paths.part_path spec.path spec.upload_id) empty_file w.files in
          if f.close_new then (err io_failed, record w { files = files }) else (
            ok (new_session paths spec),
            record {
              sessions = insert spec.upload_id (new_session paths spec) w.sessions;
              files = files;
            },
          ))
]

unfoldable pub check_session : Paths → UploadSpec → Session → Result UploadError (Unit {0})
check_session paths spec state = do
  reject_if
      (not (str_eq state.target_path "")
        && not (str_eq (paths.clean state.target_path) (paths.clean spec.path)))
      other_target
  reject_if (not (state.expected_size == 0) && not (state.expected_size == spec.total_size))
      other_total
  reject_if (not (state.chunk_size == 0) && not (state.chunk_size == spec.chunk_size))
      other_chunk_size
  reject_if (not (state.part_count == 0) && not (state.part_count == spec.chunk_count)) other_count

abbrev pub part_of : Paths → UploadSpec → Session → String
part_of paths spec state =
    if str_eq state.temp_path "" then paths.part_path spec.path spec.upload_id else state.temp_path

-- `WriteAt`: the bytes of a stream from an offset on.
unfoldable pub write_at : ℕ → ℕ → (ℕ → ℕ) → FileData → FileData
write_at offset n bytes file = record {
  size = max file.size (if n == 0 then 0 else offset + n);
  byte = λ p. if leb offset p && ltb p (offset + n) then bytes (p - offset) else file.byte p;
}

abbrev pub file_at : String → Dict FileData → FileData
file_at path files = from_option empty_file (lookup path files)

-- The copy to the part file, which may stop early; `O_CREATE` makes a missing file.
unfoldable pub copy_stream :
    Faults → UploadSpec → Body → String → World → Result UploadError (Unit {0}) × World
copy_stream f spec body part w =
    if f.open_part
    then (err io_failed, w)
    else (let written = min body.available spec.expected in
        let file = write_at spec.offset written body.byte (file_at part w.files) in
        let w' : World = record w { files = insert part file w.files } in
        if f.copy
        then (err io_failed, w')
        else if not (written == spec.expected)
        then (err truncated_stream, w')
        else if f.sync || f.close
        then (err io_failed, w')
        else (ok tt, w'))

-- The chunk counts as received.
unfoldable pub record_chunk : UploadSpec → String → World → Result UploadError (Unit {0}) × World
record_chunk spec part w = elim (lookup spec.upload_id w.sessions) [
  | none ↦ (err cancelled, w)
  | some state ↦ (
    ok tt,
    record w {
      sessions =
          insert spec.upload_id
            (record {
              size = max state.size (spec.offset + spec.expected);
              expected_size = spec.total_size;
              chunk_size = spec.chunk_size;
              target_path = if str_eq state.target_path "" then spec.path else state.target_path;
              parts = add_part spec.chunk_index state.parts;
              part_count = spec.chunk_count;
              temp_path = part;
            })
            w.sessions;
    },
  )
]

-- The bytes of a chunk, and its record if all of them were written.
unfoldable pub receive :
    Faults → UploadSpec → Body → String → World → Result UploadError (Unit {0}) × World
receive f spec body part w =
    let (copied, w') = copy_stream f spec body part w in
    elim copied [ err e ↦ (err e, w') | ok _ ↦ record_chunk spec part w' ]

-- `writeUploadStreamChunk`
unfoldable pub write_chunk :
    Paths → Faults → UploadSpec → Body → World → Result UploadError (Unit {0}) × World
write_chunk paths f spec body w =
    let (opened, w1) = open_session paths f spec w in
    elim opened [
      | err e ↦ (err e, w1)
      | ok state ↦ elim (check_session paths spec state) [
        | err e ↦ (err e, w1)
        | ok _ ↦ receive f spec body (part_of paths spec state) w1
      ]
    ]

-- Which calls of a commit fail; `other_type` says that the target is no regular file.
pub record CommitFaults : Type 0 where
  pub stat : Bool
  pub truncate : Bool
  pub make_directory : Bool
  pub other_type : Bool
  pub metadata : Bool
  pub replace : Bool
  pub sync_directory : Bool

unfoldable pub check_commit : Args → Result UploadError (Unit {0})
check_commit a = do
  reject_if (str_eq (trim_space a.upload_id) "") no_upload_id
  reject_if (is_no_file a.path) no_file
  reject_if (not (ltb_ℤ (pos 0) a.total_size) || not (ltb_ℤ (pos 0) a.chunk_count)) invalid_metadata
  reject_if (has_bad_chunk_size a) chunk_size_out_of_range
  reject_if (has_bad_count a) count_mismatch

-- `samePath` compares the cleaned paths; that it ignores the case on Windows is left out.
unfoldable pub check_complete : Paths → Args → Session → Result UploadError (Unit {0})
check_complete paths a state =
    let total = pos_part a.total_size in
    let size = pos_part (chunk_size_of a.chunk_size) in
    let count = pos_part a.chunk_count in
    do
      reject_if
          (not (str_eq state.target_path "")
            && not (str_eq (paths.clean state.target_path) (paths.clean a.path)))
          other_target
      reject_if (not (state.expected_size == 0) && not (state.expected_size == total)) other_total
      reject_if (not (state.chunk_size == 0) && not (state.chunk_size == size)) other_chunk_size
      reject_if (not (state.part_count == 0) && not (state.part_count == count)) other_count
      reject_if (not (length state.parts == count)) incomplete
      reject_if (str_eq state.temp_path "") no_part_file

-- The part file replaces the target, cut to the total size.
unfoldable pub publish :
    CommitFaults
    → String
    → ℕ
    → String
    → String
    → FileData
    → World
    → Result UploadError (Unit {0}) × World
publish f id total path part file w =
    if f.stat
    then (err io_failed, w)
    else if ltb file.size total
    then (err too_short, w)
    else if ltb total file.size && f.truncate
    then (err io_failed, w)
    else (let cut : FileData = record file { size = total } in
        let w1 : World = record w { files = insert part cut w.files } in
        if f.make_directory || f.other_type || f.metadata || f.replace
        then (err io_failed, w1)
        else (let files = insert path cut (erase part w1.files) in
            if f.sync_directory
            then (err io_failed, record w1 { files = files })
            else (ok tt, record { sessions = erase id w1.sessions; files = files })))

-- `commitFileUpload`
unfoldable pub commit_upload :
    Paths → CommitFaults → Args → World → Result UploadError (Unit {0}) × World
commit_upload paths f a w =
    let id = trim_space a.upload_id in
    elim (check_commit a) [
      | err e ↦ (err e, w)
      | ok _ ↦ elim (lookup id w.sessions) [
        | none ↦ (err unknown_session, w)
        | some state ↦ elim (check_complete paths a state) [
          | err e ↦ (err e, w)
          | ok _ ↦ elim (lookup state.temp_path w.files) [
            | none ↦ (err io_failed, w)
            | some file ↦ publish f id (pos_part a.total_size) a.path state.temp_path file w
          ]
        ]
      ]
    ]

-- `cancelFileUpload`, after the streams were stopped. A session that is unknown, as after a restart,
-- leaves the part file that its path names.
unfoldable pub cancel_upload :
    Paths → Bool → String → String → World → Result UploadError (Unit {0}) × World
cancel_upload paths remove_fails upload_id path w =
    let id = trim_space upload_id in
    if str_eq id "" then (err no_upload_id, w) else elim (lookup id w.sessions) [
      | some state ↦
          if not (str_eq path "")
            && not (str_eq state.target_path "")
            && not (str_eq (paths.clean path) (paths.clean state.target_path))
          then (err other_target, w)
          else if not (str_eq state.temp_path "") && remove_fails
          then (err io_failed, w)
          else (
            ok tt,
            record {
              sessions = erase id w.sessions;
              files = if str_eq state.temp_path "" then w.files else erase state.temp_path w.files;
            },
          )
      | none ↦
          if str_eq path ""
          then (ok tt, w)
          else if remove_fails
          then (err io_failed, w)
          else (ok tt, record w { files = erase (paths.part_path path id) w.files })
    ]

-- ===== src/Uploads/Spec.antt =====
-- `parseUploadStreamSpec` of files/stream.go, with the 64-bit arithmetic of its products and sums.
-- The path is the one that `resolveFilePath` returns.
use komari_agent.Shared.{
  ℕ, suc, ◌+◌, ◌-◌, ◌*◌, ◌/◌, Bool, not, ◌||◌, String, str_eq, ◌==◌, leb, if◌then◌else◌, min,
}
use komari_agent.Shared.Results.{Result, ok, ◌>>◌, reject_if}
use komari_agent.Shared.Texts.{trim_space}
use komari_agent.Shared.Int.{ℤ, pos, negsuc, pos_part, ltb_ℤ, int64}

pub data UploadError : Type 0 where
  no_upload_id no_file invalid_metadata chunk_size_out_of_range count_mismatch : UploadError
  invalid_offset invalid_size unknown_session other_target other_total other_chunk_size :
      UploadError
  other_count incomplete no_part_file too_short io_failed truncated_stream cancelled : UploadError

-- The arguments of the call, as the 64-bit integers that `argInt64` reads.
pub record Args : Type 0 where
  pub path : String
  pub upload_id : String
  pub offset : ℤ
  pub chunk_index : ℤ
  pub chunk_count : ℤ
  pub total_size : ℤ
  pub chunk_size : ℤ
  pub first : Bool

pub record UploadSpec : Type 0 where
  pub path : String
  pub upload_id : String
  pub offset : ℕ
  pub chunk_index : ℕ
  pub chunk_count : ℕ
  pub total_size : ℕ
  pub chunk_size : ℕ
  pub expected : ℕ
  pub first : Bool

-- 25 MiB and 128 MiB.
abbrev pub default_transfer_chunk_size : ℕ
default_transfer_chunk_size = 26214400

abbrev pub max_transfer_chunk_size : ℕ
max_transfer_chunk_size = 134217728

abbrev pub eq_ℤ : ℤ → ℤ → Bool
eq_ℤ (pos a) (pos b) = a == b
eq_ℤ (negsuc a) (negsuc b) = a == b
eq_ℤ _ _ = Bool.false

-- Go's division by a positive number, which truncates towards 0.
abbrev pub quotient : ℤ → ℕ → ℤ
quotient (pos n) d = pos (n / d)
quotient (negsuc n) d = if suc n / d == 0 then pos 0 else negsuc (suc n / d - 1)

abbrev pub chunk_size_of : ℤ → ℤ
chunk_size_of c = if eq_ℤ c (pos 0) then pos default_transfer_chunk_size else c

-- `uploadChunkCount`: the number of chunks that a total size has; the sum wraps around.
abbrev pub count_of : ℕ → ℕ → ℤ
count_of total chunk =
    if total == 0 || chunk == 0 then pos 0 else quotient (int64 (total + chunk - 1)) chunk

abbrev pub is_no_file : String → Bool
is_no_file path = str_eq path "/" || str_eq path "."

-- The tests of `parseUploadStreamSpec`, one definition each.
unfoldable pub has_bad_signs : Args → Bool
has_bad_signs a =
    ltb_ℤ a.offset (pos 0) || not (ltb_ℤ (pos 0) a.chunk_count) || not (ltb_ℤ (pos 0) a.total_size)

unfoldable pub has_bad_chunk_size : Args → Bool
has_bad_chunk_size a =
    let chunk = chunk_size_of a.chunk_size in
    not (ltb_ℤ (pos 0) chunk) || ltb_ℤ (pos max_transfer_chunk_size) chunk

unfoldable pub has_bad_count : Args → Bool
has_bad_count a =
    not (
      eq_ℤ a.chunk_count (count_of (pos_part a.total_size) (pos_part (chunk_size_of a.chunk_size))))

unfoldable pub has_bad_offset : Args → Bool
has_bad_offset a =
    ltb_ℤ a.chunk_index (pos 0)
    || not (ltb_ℤ a.chunk_index a.chunk_count)
    || not (eq_ℤ a.offset (int64 (pos_part a.chunk_index * pos_part (chunk_size_of a.chunk_size))))

unfoldable pub spec_of : Args → UploadSpec
spec_of a =
    let size = pos_part (chunk_size_of a.chunk_size) in
    record {
      path = a.path;
      upload_id = trim_space a.upload_id;
      offset = pos_part a.offset;
      chunk_index = pos_part a.chunk_index;
      chunk_count = pos_part a.chunk_count;
      total_size = pos_part a.total_size;
      chunk_size = size;
      expected = min size (pos_part a.total_size - pos_part a.offset);
      first = a.first;
    }

unfoldable pub parse_upload_stream_spec : Args → Result UploadError UploadSpec
parse_upload_stream_spec a = do
  reject_if (str_eq (trim_space a.upload_id) "") no_upload_id
  reject_if (is_no_file a.path) no_file
  reject_if (has_bad_signs a) invalid_metadata
  reject_if (has_bad_chunk_size a) chunk_size_out_of_range
  reject_if (has_bad_count a) count_mismatch
  reject_if (has_bad_offset a) invalid_offset
  reject_if (leb (pos_part a.total_size) (pos_part a.offset)) invalid_size
  ok (spec_of a)

-- ===== src/Uploads/Tests.antt =====
-- The theorems on uploads at concrete data.
use komari_agent.Shared.{ℕ, ◌+◌, ◌≡◌, refl, true, false, none, List, [], ◌∷◌, arith}
use komari_agent.Shared.Maps.{lookup}
use komari_agent.Shared.Results.{ok}
use komari_agent.Shared.Texts.{trim_space}
use komari_agent.Shared.Int.{pos}
use komari_agent.Uploads.Spec.{
  Args, UploadSpec, has_bad_signs, has_bad_chunk_size, has_bad_count, has_bad_offset, spec_of,
  parse_upload_stream_spec,
}
use komari_agent.Uploads.Ranges.{IsRange, parse-IsRange}
use komari_agent.Uploads.Chunks.{
  Paths, World, Faults, CommitFaults, file_at, open_session, check_session, write_at, copy_stream,
  record_chunk, receive, write_chunk, check_commit, check_complete, publish, commit_upload,
}
use komari_agent.Uploads.Content.{HasPartPaths, Chunk, write_all, AllFrom, IsCopy, upload_copies}
use komari_agent.Uploads.Lifecycle.{begin_stream, cancel_streams}
use komari_agent.Uploads.Tombstones.{Call, begins, ends, run, cancelled_stays}

abbrev args : Args
args = record {
  path = "/srv/a";
  upload_id = "u1";
  offset = pos 2;
  chunk_index = pos 1;
  chunk_count = pos 2;
  total_size = pos 3;
  chunk_size = pos 2;
  first = false;
}

abbrev second_chunk : UploadSpec
second_chunk = record {
  path = "/srv/a";
  upload_id = "u1";
  offset = 2;
  chunk_index = 1;
  chunk_count = 2;
  total_size = 3;
  chunk_size = 2;
  expected = 1;
  first = false;
}

parsed : parse_upload_stream_spec args ≡ ok second_chunk
unfolding parse_upload_stream_spec spec_of has_bad_signs has_bad_chunk_size has_bad_count
    has_bad_offset trim_space
parsed = refl

parse-IsRange_example : IsRange second_chunk
parse-IsRange_example = parse-IsRange args (omega arith) parsed

abbrev first_chunk : UploadSpec
first_chunk = record second_chunk { offset = 0; chunk_index = 0; expected = 2; first = true }

first_chunk-IsRange : IsRange first_chunk
first_chunk-IsRange = record {
  chunk_positive = omega arith;
  chunk_bounded = omega arith;
  count = refl;
  index = omega arith;
  start = refl;
  before_end = omega arith;
  length = refl;
}

second_chunk-IsRange : IsRange second_chunk
second_chunk-IsRange = record {
  chunk_positive = omega arith;
  chunk_bounded = omega arith;
  count = refl;
  index = omega arith;
  start = refl;
  before_end = omega arith;
  length = refl;
}

abbrev paths : Paths
paths = record { clean = λ p. p; part_path = λ p id. "/srv/.a.part" }

paths-HasPartPaths : HasPartPaths paths
paths-HasPartPaths path id = refl

abbrev no_faults : Faults
no_faults = record {
  create = false;
  close_new = false;
  open_part = false;
  copy = false;
  sync = false;
  close = false;
}

-- The byte at a position is its number.
abbrev source : ℕ → ℕ
source p = p

abbrev chunks : List Chunk
chunks =
    record {
      spec = first_chunk;
      body = record { byte = λ k. 0 + k; available = 1 };
      faults = no_faults;
    }
    ∷ record {
      spec = second_chunk;
      body = record { byte = λ k. 2 + k; available = 9 };
      faults = no_faults;
    }
    ∷ record {
      spec = first_chunk;
      body = record { byte = λ k. 0 + k; available = 2 };
      faults = no_faults;
    }
    ∷ []

abbrev nothing : World
nothing = record { sessions = []; files = [] }

chunks-AllFrom : AllFrom source (trim_space "u1") chunks
unfolding trim_space
chunks-AllFrom = (
  (refl, first_chunk-IsRange, λ k h. refl),
  ((refl, second_chunk-IsRange, λ k h. refl), ((refl, first_chunk-IsRange, λ k h. refl), tt)),
)

abbrev no_commit_faults : CommitFaults
no_commit_faults = record {
  stat = false;
  truncate = false;
  make_directory = false;
  other_type = false;
  metadata = false;
  replace = false;
  sync_directory = false;
}

unknown : lookup (trim_space "u1") nothing.sessions ≡ none
unknown = refl

committed : (commit_upload paths no_commit_faults args (write_all paths chunks nothing)).0 ≡ ok tt
unfolding commit_upload check_commit check_complete publish write_all write_chunk open_session
    check_session receive copy_stream write_at record_chunk has_bad_chunk_size has_bad_count
    trim_space
committed = refl

upload_copies_example : IsCopy source 3 (
    file_at "/srv/a"
      (commit_upload paths no_commit_faults args (write_all paths chunks nothing)).1.files)
upload_copies_example =
    upload_copies source paths no_commit_faults args chunks nothing paths-HasPartPaths unknown
      chunks-AllFrom committed

abbrev calls : List (ℕ × Call)
calls = (60, ends "u1" "s") ∷ (70, begins "u2" "t") ∷ (80, begins "u1" "v") ∷ []

cancelled_stays_example :
    (begin_stream "u1" "w" 90 (run calls (cancel_streams "u1" 50 []).1)).0 ≡ false
cancelled_stays_example =
    cancelled_stays "u1" "w" 50 90 calls [] refl (omega arith)
      ((omega arith, omega arith), ((omega arith, omega arith), ((omega arith, omega arith), tt)))
      (omega arith) (omega arith)

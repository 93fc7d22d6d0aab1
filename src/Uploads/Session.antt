-- ===== src/Uploads/Session.antt =====
-- What a session knows of its part file: the chunks that it counts hold the bytes of the source
-- (files/stream.go).
use komari_agent.Shared.{
  ℕ, ◌+◌, ◌-◌, ◌*◌, ◌≤◌, ◌<◌, ◌≡◌, refl, sym, ap, subst, ◌∙◌, ◌⊎◌, inl, inr, Bool-cases, true,
  false, ◌&&◌, ◌||◌, some, String, str_eq, arith, ◌==◌, ltb, leb, if◌then◌else◌, min, max,
  from_option,
}
use komari_agent.Shared.Maps.{Dict, lookup, insert, lookup-insert_self}
use komari_agent.Shared.Results.{ok, err}
use komari_agent.Uploads.Spec.{UploadError, UploadSpec, io_failed, truncated_stream}
use komari_agent.Uploads.Ranges.{IsRange, chunks_of}
use komari_agent.Uploads.Parts.{
  is_set, all_below, is_set-add_part, all_below-add_part, contains-add_part,
}
use komari_agent.Uploads.Chunks.{
  Paths, FileData, Session, World, Body, Faults, contains, add_part, check_session, part_of,
  write_at, file_at, empty_file, copy_stream, record_chunk,
}

-- A file has the bytes of the source from `start` on, in one chunk of a file of `total` bytes.
abbrev pub HasChunk : (ℕ → ℕ) → ℕ → ℕ → ℕ → FileData → Type 0
HasChunk source start chunk total file =
    (p : ℕ) → start ≤ p → p < start + chunk → p < total → file.byte p ≡ source p

pub record IsFaithful (source : ℕ → ℕ) (s : Session) (file : FileData) : Type 0 where
  pub chunk_positive : 0 < s.chunk_size
  pub total_positive : 0 < s.expected_size
  pub count : s.part_count ≡ chunks_of s.expected_size s.chunk_size
  pub parts_set : is_set s.parts ≡ true
  pub parts_below : all_below s.part_count s.parts ≡ true
  pub has_path : str_eq s.temp_path "" ≡ false
  pub chunks :
      (i : ℕ)
      → contains i s.parts ≡ true
      → HasChunk source (i * s.chunk_size) s.chunk_size s.expected_size file

-- The session of an upload, if there is one, is faithful to its part file.
abbrev pub Keeps : (ℕ → ℕ) → String → World → Type 0
Keeps source id w =
    (s : Session)
    → lookup id w.sessions ≡ some s
    → IsFaithful source s (file_at s.temp_path w.files)

-- The stream of a chunk carries the bytes of the source at the chunk's offset.
abbrev pub IsFrom : (ℕ → ℕ) → UploadSpec → Body → Type 0
IsFrom source spec body = (k : ℕ) → k < body.available → body.byte k ≡ source (spec.offset + k)

-- A session was opened for the numbers of the chunk.
abbrev pub Agrees : UploadSpec → Session → Type 0
Agrees spec s =
    (s.expected_size ≡ spec.total_size)
    × (s.chunk_size ≡ spec.chunk_size)
    × (s.part_count ≡ spec.chunk_count)

pub check_session-Agrees :
    (paths : Paths) (spec : UploadSpec) (s : Session)
    → 0 < s.expected_size
    → 0 < s.chunk_size
    → 0 < s.part_count
    → check_session paths spec s ≡ ok tt
    → Agrees spec s
unfolding check_session
check_session-Agrees paths spec s a b c h = ground arith

write_at-source :
    (source : ℕ → ℕ) (spec : UploadSpec) (body : Body) (n p : ℕ) (file : FileData)
    → IsFrom source spec body
    → n ≤ body.available
    → (file.byte p ≡ source p) ⊎ ((spec.offset ≤ p) × (p < spec.offset + n))
    → (write_at spec.offset n body.byte file).byte p ≡ source p
unfolding write_at
write_at-source source spec body n p file from le h =
    elim (Bool-cases (leb spec.offset p && ltb p (spec.offset + n))) [
      | inl e ↦
          let e' : spec.offset + (p - spec.offset) ≡ p = ground arith in
          let k : p - spec.offset < body.available = ground arith in
          rw e (from (p - spec.offset) k ∙ ap source e')
      | inr e ↦ rw e (elim h [ inl same ↦ same | inr inside ↦ ground arith ])
    ]

-- The part file after a copy: untouched, or with the bytes that arrived.
abbrev copied : UploadSpec → Body → String → World → FileData
copied spec body part w =
    write_at spec.offset (min body.available spec.expected) body.byte (file_at part w.files)

copy_stream-files :
    (f : Faults) (spec : UploadSpec) (body : Body) (part : String) (w : World)
    → (((e : UploadError) × ((copy_stream f spec body part w).0 ≡ err e))
        × ((copy_stream f spec body part w).1.files ≡ w.files))
      ⊎ (((copy_stream f spec body part w).1.files ≡ insert part (copied spec body part w) w.files)
          × (((e : UploadError) × ((copy_stream f spec body part w).0 ≡ err e))
              ⊎ (min body.available spec.expected ≡ spec.expected)))
unfolding copy_stream
copy_stream-files f spec body part w = elim (Bool-cases f.open_part) [
  | inl e ↦ rw (e, copy_stream) (inl ((io_failed, refl), refl))
  | inr e ↦
      rw (e, copy_stream)
        (elim (Bool-cases f.copy) [
          | inl c ↦ rw (c, copy_stream) (inr (refl, inl (io_failed, refl)))
          | inr c ↦
              rw (c, copy_stream)
                (elim (Bool-cases (min body.available spec.expected == spec.expected)) [
                  | inr n ↦ rw (n, copy_stream) (inr (refl, inl (truncated_stream, refl)))
                  | inl n ↦
                      rw (n, copy_stream)
                        (elim (Bool-cases (f.sync || f.close)) [
                          | inl s ↦ rw (s, copy_stream) (inr (refl, inl (io_failed, refl)))
                          | inr s ↦ rw (s, copy_stream) (inr (refl, inr (ground arith)))
                        ])
                ])
        ])
]

pub file_at-insert :
    (part : String) (file : FileData) (files : Dict FileData)
    → file_at part (insert part file files) ≡ file
file_at-insert part file files = ap (from_option empty_file) (lookup-insert_self part file files)

-- A copy that stops anywhere leaves the bytes of the source as they are; one that succeeds has
-- written its own chunk.
copy_stream-source :
    (source : ℕ → ℕ) (f : Faults) (spec : UploadSpec) (body : Body) (part : String) (w : World)
    (p : ℕ)
    → IsFrom source spec body
    → ((file_at part w.files).byte p ≡ source p)
      ⊎ (((copy_stream f spec body part w).0 ≡ ok tt)
          × (spec.offset ≤ p)
          × (p < spec.offset + spec.expected))
    → (file_at part (copy_stream f spec body part w).1.files).byte p ≡ source p
copy_stream-source source f spec body part w p from h =
    elim (copy_stream-files f spec body part w) [
      | inl ((x, bad), e) ↦ rw e (elim h [ inl same ↦ same | inr (good, _, _) ↦ ground arith ])
      | inr (e, how) ↦ rw e (
          rw (file_at-insert part (copied spec body part w) w.files) (
            write_at-source source spec body (min body.available spec.expected) p
              (file_at part w.files) from (omega arith)
              (elim h [
                | inl same ↦ inl same
                | inr (good, a, b) ↦ elim how [
                  | inl (x, bad) ↦ ground arith
                  | inr whole ↦ inr (a, omega (arith, whole, b))
                ]
              ])))
    ]

copy_stream-sessions :
    (f : Faults) (spec : UploadSpec) (body : Body) (part : String) (w : World)
    → (copy_stream f spec body part w).1.sessions ≡ w.sessions
unfolding copy_stream
copy_stream-sessions f spec body part w = ground arith

-- The session after a chunk was recorded.
abbrev recorded : UploadSpec → String → Session → Session
recorded spec part s = record {
  size = max s.size (spec.offset + spec.expected);
  expected_size = spec.total_size;
  chunk_size = spec.chunk_size;
  target_path = if str_eq s.target_path "" then spec.path else s.target_path;
  parts = add_part spec.chunk_index s.parts;
  part_count = spec.chunk_count;
  temp_path = part;
}

-- A file that keeps the bytes of the source keeps the chunks that count.
IsFaithful-keeps :
    (source : ℕ → ℕ) (s : Session) (old new : FileData)
    → ((p : ℕ) → old.byte p ≡ source p → new.byte p ≡ source p)
    → IsFaithful source s old
    → IsFaithful source s new
IsFaithful-keeps source s old new keep h = record {
  chunk_positive = h.chunk_positive;
  total_positive = h.total_positive;
  count = h.count;
  parts_set = h.parts_set;
  parts_below = h.parts_below;
  has_path = h.has_path;
  chunks = λ i c p a b t. keep p (h.chunks i c p a b t);
}

-- A chunk that was written whole counts.
IsFaithful-recorded :
    (source : ℕ → ℕ) (spec : UploadSpec) (part : String) (s : Session) (file : FileData)
    → IsRange spec
    → Agrees spec s
    → s.temp_path ≡ part
    → ((p : ℕ) → spec.offset ≤ p → p < spec.offset + spec.expected → file.byte p ≡ source p)
    → IsFaithful source s file
    → IsFaithful source (recorded spec part s) file
IsFaithful-recorded source spec part s file range (total, chunk, count) path written h = record {
  chunk_positive = range.chunk_positive;
  total_positive = omega (arith, range.before_end);
  count = range.count;
  parts_set = is_set-add_part spec.chunk_index s.parts h.parts_set;
  parts_below =
      all_below-add_part spec.chunk_index spec.chunk_count s.parts range.index
        (subst (λ n. all_below n s.parts ≡ true) count h.parts_below);
  has_path = ap (λ t. str_eq t "") (sym path) ∙ h.has_path;
  chunks = λ i c p a b t. elim (contains-add_part spec.chunk_index i s.parts c) [
    | inl e ↦
        let start : i * spec.chunk_size ≡ spec.offset =
          ap (λ n. n * spec.chunk_size) e ∙ sym range.start in
        written p (omega (arith, start, a)) (omega (arith, start, b, t, range.length))
    | inr old ↦
        let same : i * spec.chunk_size ≡ i * s.chunk_size = ap (λ n. i * n) (sym chunk) in
        h.chunks i old p (omega (arith, same, a)) (omega (arith, same, b, chunk))
          (omega (arith, t, total))
  ];
}

-- The part of `write_chunk` behind the opening of the session.
module _ (source : ℕ → ℕ) (paths : Paths) (f : Faults) (spec : UploadSpec) (body : Body) (w : World)
    (s : Session) (range : IsRange spec) (from : IsFrom source spec body)
    (found : lookup spec.upload_id w.sessions ≡ some s)
    (faithful : IsFaithful source s (file_at s.temp_path w.files)) where
  pub part_of-temp_path : part_of paths spec s ≡ s.temp_path
  part_of-temp_path = rw faithful.has_path refl

  pub copied-Keeps : Keeps source spec.upload_id (copy_stream f spec body s.temp_path w).1
  copied-Keeps t e =
      let same : s ≡ t = ground (
        arith,
        found,
        ap (lookup spec.upload_id) (copy_stream-sessions f spec body s.temp_path w),
      ) in
      subst
        (λ u.
          IsFaithful source u (file_at u.temp_path (copy_stream f spec body s.temp_path w).1.files))
        same
        (IsFaithful-keeps source s (file_at s.temp_path w.files)
          (file_at s.temp_path (copy_stream f spec body s.temp_path w).1.files)
          (λ p h. copy_stream-source source f spec body s.temp_path w p from (inl h)) faithful)

  pub recorded-Keeps :
      (copy_stream f spec body s.temp_path w).0 ≡ ok tt
      → Agrees spec s
      → Keeps source spec.upload_id
          (record_chunk spec s.temp_path (copy_stream f spec body s.temp_path w).1).1
  unfolding record_chunk
  recorded-Keeps done agrees =
      let w2 = (copy_stream f spec body s.temp_path w).1 in
      let found2 : lookup spec.upload_id w2.sessions ≡ some s =
        ap (lookup spec.upload_id) (copy_stream-sessions f spec body s.temp_path w) ∙ found in
      let now =
        IsFaithful-recorded source spec s.temp_path s (file_at s.temp_path w2.files) range agrees
          refl
          (λ p a b. copy_stream-source source f spec body s.temp_path w p from (inr (done, a, b)))
          (copied-Keeps s found2) in
      rw (found2, record_chunk)
        (λ t e.
          let same : recorded spec s.temp_path s ≡ t =
            ground (
              arith,
              lookup-insert_self spec.upload_id (recorded spec s.temp_path s) w2.sessions,
            ) in
          subst (λ u. IsFaithful source u (file_at u.temp_path w2.files)) same now)

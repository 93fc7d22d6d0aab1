-- ===== src/Uploads/Content.antt =====
-- What a committed upload contains (files/stream.go and files/ops.go).
use native.Mathlib.Nat.{div-mul-le_self, lt-div-mul-add, le-div_iff_mul-le}
use komari_agent.Shared.{
  ℕ, ◌+◌, ◌-◌, ◌*◌, ◌/◌, ◌≤◌, ◌<◌, ◌≡◌, refl, sym, ap, subst, ◌⊎◌, inl, inr, Bool-cases,
  Option-cases, false, not, ◌&&◌, ◌||◌, none, some, List, [], ◌∷◌, String, str_eq, arith, ltb, all,
  length, from_option,
}
use komari_agent.Shared.Maps.{lookup, lookup-insert_self}
use komari_agent.Shared.Results.{Result, ok, err, Result-cases}
use komari_agent.Shared.Texts.{trim_space}
use komari_agent.Shared.Int.{pos_part}
use komari_agent.Uploads.Spec.{UploadError, Args, UploadSpec, io_failed, unknown_session}
use komari_agent.Uploads.Ranges.{IsRange, chunks_of}
use komari_agent.Uploads.Parts.{contains_all}
use komari_agent.Uploads.Chunks.{
  Paths, FileData, Session, World, Body, Faults, CommitFaults, new_session, open_session,
  check_session, file_at, empty_file, copy_stream, receive, write_chunk, check_commit,
  check_complete, publish, commit_upload,
}
use komari_agent.Uploads.Session.{
  IsFaithful, Keeps, IsFrom, check_session-Agrees, file_at-insert, part_of-temp_path, copied-Keeps,
  recorded-Keeps,
}

-- Paths of part files are not empty.
abbrev pub HasPartPaths : Paths → Type 0
HasPartPaths paths = (path id : String) → str_eq (paths.part_path path id) "" ≡ false

-- How a session is opened.
abbrev Opened : (ℕ → ℕ) → String → Result UploadError Session × World → Type 0
Opened source id r =
    (((e : UploadError) × (r.0 ≡ err e)) × Keeps source id r.1)
    ⊎ ((s : Session) × (r.0 ≡ ok s)
        × (lookup id r.1.sessions ≡ some s)
        × IsFaithful source s (file_at s.temp_path r.1.files))

new_session-IsFaithful :
    (source : ℕ → ℕ) (paths : Paths) (spec : UploadSpec) (file : FileData)
    → HasPartPaths paths
    → IsRange spec
    → IsFaithful source (new_session paths spec) file
new_session-IsFaithful source paths spec file nonempty range = record {
  chunk_positive = range.chunk_positive;
  total_positive = omega (arith, range.before_end);
  count = range.count;
  parts_set = refl;
  parts_below = refl;
  has_path = nonempty spec.path spec.upload_id;
  chunks = λ i c p a b t. ground arith;
}

open_session-Opened :
    (source : ℕ → ℕ) (paths : Paths) (f : Faults) (spec : UploadSpec) (w : World)
    → HasPartPaths paths
    → IsRange spec
    → Keeps source spec.upload_id w
    → Opened source spec.upload_id (open_session paths f spec w)
unfolding open_session
open_session-Opened source paths f spec w nonempty range keeps =
    elim (Option-cases (lookup spec.upload_id w.sessions)) [
      | inr (s, e) ↦ rw (e, open_session) (inr (s, refl, e, keeps s e))
      | inl e ↦
          rw (e, open_session)
            (elim (Bool-cases (not spec.first)) [
              | inl n ↦ rw (n, open_session) (inl ((unknown_session, refl), keeps))
              | inr n ↦
                  rw (n, open_session)
                    (elim (Bool-cases f.create) [
                      | inl c ↦ rw (c, open_session) (inl ((io_failed, refl), keeps))
                      | inr c ↦
                          rw (c, open_session)
                            (elim (Bool-cases f.close_new) [
                              | inl x ↦
                                  rw (x, open_session)
                                    (inl ((io_failed, refl), λ s found. ground arith))
                              | inr x ↦
                                  rw (x, open_session)
                                    (inr (
                                      new_session paths spec,
                                      refl,
                                      lookup-insert_self spec.upload_id (new_session paths spec)
                                          w.sessions,
                                      new_session-IsFaithful source paths spec _ nonempty range,
                                    ))
                            ])
                    ])
            ])
    ]

chunks_of_pos : (total chunk : ℕ) → 0 < total → 0 < chunk → 0 < chunks_of total chunk
chunks_of_pos total chunk t c =
    let one : 1 ≤ chunks_of total chunk = (le-div_iff_mul-le c).1 (omega (arith, t)) in
    omega (arith, one)

receive-Keeps :
    (source : ℕ → ℕ) (paths : Paths) (f : Faults) (spec : UploadSpec) (body : Body) (w : World)
    (s : Session)
    → IsRange spec
    → IsFrom source spec body
    → lookup spec.upload_id w.sessions ≡ some s
    → IsFaithful source s (file_at s.temp_path w.files)
    → check_session paths spec s ≡ ok tt
    → Keeps source spec.upload_id (receive f spec body s.temp_path w).1
unfolding receive
receive-Keeps source paths f spec body w s range from found h checked =
    elim (Result-cases (copy_stream f spec body s.temp_path w).0) [
      | inr (x, d) ↦ rw (d, receive) (copied-Keeps source paths f spec body w s range from found h)
      | inl (_, d) ↦
          rw (d, receive)
            (recorded-Keeps source paths f spec body w s range from found h d (
              check_session-Agrees paths spec s h.total_positive h.chunk_positive
                (subst (λ n. 0 < n) (sym h.count)
                  (chunks_of_pos s.expected_size s.chunk_size h.total_positive h.chunk_positive))
                checked))
    ]

write_chunk-Keeps :
    (source : ℕ → ℕ) (paths : Paths) (f : Faults) (spec : UploadSpec) (body : Body) (w : World)
    → HasPartPaths paths
    → IsRange spec
    → IsFrom source spec body
    → Keeps source spec.upload_id w
    → Keeps source spec.upload_id (write_chunk paths f spec body w).1
unfolding write_chunk
write_chunk-Keeps source paths f spec body w nonempty range from keeps =
    elim (open_session-Opened source paths f spec w nonempty range keeps) [
      | inl ((x, e), k) ↦ rw (e, write_chunk) k
      | inr (s, e, found, faithful) ↦
          let w1 = (open_session paths f spec w).1 in
          rw (e, write_chunk)
            (elim (Result-cases (check_session paths spec s)) [
              | inr (x, c) ↦
                  rw (c, write_chunk)
                    (λ t g.
                      let same : s ≡ t = ground (arith, found, g) in
                      subst (λ u. IsFaithful source u (file_at u.temp_path w1.files)) same faithful)
              | inl (_, c) ↦
                  rw (c, write_chunk)
                    (subst (λ part. Keeps source spec.upload_id (receive f spec body part w1).1)
                      (sym
                        (part_of-temp_path source paths f spec body w1 s range from found faithful))
                      (receive-Keeps source paths f spec body w1 s range from found faithful c))
            ])
    ]

-- The chunks of one upload, in the order in which the agent runs them.
pub record Chunk : Type 0 where
  pub spec : UploadSpec
  pub body : Body
  pub faults : Faults

unfoldable pub write_all : Paths → List Chunk → World → World
write_all paths [] w = w
write_all paths (c ∷ cs) w = write_all paths cs (write_chunk paths c.faults c.spec c.body w).1

-- Calls that belong to an upload and carry the bytes of its source.
abbrev pub AllFrom : (ℕ → ℕ) → String → List Chunk → Type 0
AllFrom source id [] = Unit {0}
AllFrom source id (c ∷ cs) =
    ((c.spec.upload_id ≡ id) × IsRange c.spec × IsFrom source c.spec c.body) × AllFrom source id cs

write_all-Keeps :
    (source : ℕ → ℕ) (paths : Paths) (id : String) (cs : List Chunk) (w : World)
    → HasPartPaths paths
    → AllFrom source id cs
    → Keeps source id w
    → Keeps source id (write_all paths cs w)
unfolding write_all
write_all-Keeps source paths id [] w nonempty all keeps = keeps
write_all-Keeps source paths id (c ∷ cs) w nonempty ((e, range, from), all) keeps =
    write_all-Keeps source paths id cs (write_chunk paths c.faults c.spec c.body w).1 nonempty all (
      subst (λ i. Keeps source i (write_chunk paths c.faults c.spec c.body w).1) e
        (write_chunk-Keeps source paths c.faults c.spec c.body w nonempty range from
          (subst (λ i. Keeps source i w) (sym e) keeps)))

-- A file of `total` bytes whose chunks all count has all the bytes of the source.
all_bytes :
    (source : ℕ → ℕ) (s : Session) (file : FileData) (p : ℕ)
    → IsFaithful source s file
    → length s.parts ≡ s.part_count
    → p < s.expected_size
    → file.byte p ≡ source p
all_bytes source s file p h complete inside =
    let i = p / s.chunk_size in
    let low : i * s.chunk_size ≤ p = div-mul-le_self p s.chunk_size in
    let high : p < i * s.chunk_size + s.chunk_size = lt-div-mul-add h.chunk_positive in
    let next' : (i + 1) * s.chunk_size ≤ s.expected_size + s.chunk_size - 1 =
      grind (arith, low, inside) in
    let index : i + 1 ≤ chunks_of s.expected_size s.chunk_size =
      (le-div_iff_mul-le h.chunk_positive).1 next' in
    h.chunks i
      (contains_all s.part_count i s.parts h.parts_set h.parts_below complete
        (omega (arith, index, h.count)))
      p low high inside

-- What the target is after a commit: a file of this size with the bytes of the source.
abbrev pub IsCopy : (ℕ → ℕ) → ℕ → FileData → Type 0
IsCopy source total file = (file.size ≡ total) × ((p : ℕ) → p < total → file.byte p ≡ source p)

check_complete-ok :
    (paths : Paths) (a : Args) (s : Session)
    → 0 < s.expected_size
    → 0 < s.part_count
    → check_complete paths a s ≡ ok tt
    → (s.expected_size ≡ pos_part a.total_size) × (length s.parts ≡ s.part_count)
unfolding check_complete
check_complete-ok paths a s t c h = ground arith

publish-ok :
    (f : CommitFaults) (id : String) (total : ℕ) (path part : String) (file : FileData) (w : World)
    → (publish f id total path part file w).0 ≡ ok tt
    → file_at path (publish f id total path part file w).1.files ≡ record file { size = total }
unfolding publish
publish-ok f id total path part file w h = elim (Bool-cases f.stat) [
  | inl e ↦ cc (rw (e, publish) at h)
  | inr e0 ↦ elim (Bool-cases (ltb file.size total)) [
    | inl e ↦ cc (rw (e0, e, publish) at h)
    | inr e ↦ elim (Bool-cases (ltb total file.size && f.truncate)) [
      | inl t ↦ cc (rw (e0, e, t, publish) at h)
      | inr t ↦ elim (Bool-cases (f.make_directory || f.other_type || f.metadata || f.replace)) [
        | inl m ↦ cc (rw (e0, e, t, m, publish) at h)
        | inr m ↦ elim (Bool-cases f.sync_directory) [
          | inl y ↦ cc (rw (e0, e, t, m, y, publish) at h)
          | inr y ↦
              rw (e0, publish)
                (rw (e, publish)
                  (rw (t, publish)
                    (rw (m, publish)
                      (rw (y, publish) (file_at-insert path (record file { size = total }) _)))))
        ]
      ]
    ]
  ]
]

commit_upload-IsCopy :
    (source : ℕ → ℕ) (paths : Paths) (f : CommitFaults) (a : Args) (w : World)
    → Keeps source (trim_space a.upload_id) w
    → (commit_upload paths f a w).0 ≡ ok tt
    → IsCopy source (pos_part a.total_size) (file_at a.path (commit_upload paths f a w).1.files)
unfolding commit_upload
commit_upload-IsCopy source paths f a w keeps h = elim (Result-cases (check_commit a)) [
  | inr (x, e) ↦ cc (rw (e, commit_upload) at h)
  | inl (_, e) ↦ elim (Option-cases (lookup (trim_space a.upload_id) w.sessions)) [
    | inl n ↦ cc (rw (e, n, commit_upload) at h)
    | inr (s, found) ↦ elim (Result-cases (check_complete paths a s)) [
      | inr (x, c) ↦ cc (rw (e, found, c, commit_upload) at h)
      | inl (_, c) ↦ elim (Option-cases (lookup s.temp_path w.files)) [
        | inl n ↦ cc (rw (e, found, c, n, commit_upload) at h)
        | inr (file, there) ↦
            let faithful =
              subst (IsFaithful source s) (ap (from_option empty_file) there) (keeps s found) in
            let (total, complete) =
              check_complete-ok paths a s faithful.total_positive
                (subst (λ n. 0 < n) (sym faithful.count)
                  (chunks_of_pos s.expected_size s.chunk_size faithful.total_positive
                    faithful.chunk_positive))
                c in
            let done =
              publish-ok f (trim_space a.upload_id) (pos_part a.total_size) a.path s.temp_path file
                w (rw (e, found, c, there, commit_upload) at h) in
            rw (e, commit_upload)
              (rw (found, commit_upload)
                (rw (c, commit_upload)
                  (rw (there, commit_upload)
                    (rw done (
                      refl,
                      λ p inside.
                          all_bytes source s file p faithful complete
                            (omega (arith, inside, total)),
                    )))))
      ]
    ]
  ]
]

-- An upload that starts without a session, and whose chunks carry the bytes of one source at their
-- offsets, in any order, repeated or cut off, whichever of their system calls fail: if the commit
-- returns no error, the target is a file of the total size with exactly the bytes of the source.
pub upload_copies :
    (source : ℕ → ℕ) (paths : Paths) (f : CommitFaults) (a : Args) (cs : List Chunk) (w : World)
    → HasPartPaths paths
    → lookup (trim_space a.upload_id) w.sessions ≡ none
    → AllFrom source (trim_space a.upload_id) cs
    → (commit_upload paths f a (write_all paths cs w)).0 ≡ ok tt
    → IsCopy source
        (pos_part a.total_size)
        (file_at a.path (commit_upload paths f a (write_all paths cs w)).1.files)
upload_copies source paths f a cs w nonempty fresh all h =
    commit_upload-IsCopy source paths f a (write_all paths cs w)
      (write_all-Keeps source paths (trim_space a.upload_id) cs w nonempty all
        (λ s found. ground arith))
      h

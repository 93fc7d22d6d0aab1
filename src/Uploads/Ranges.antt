-- ===== src/Uploads/Ranges.antt =====
-- What the metadata of a chunk says once it was accepted (files/stream.go).
use native.Mathlib.Nat.{zero-div, le-div_iff_mul-le}
use komari_agent.Shared.{
  ℕ, ◌+◌, ◌-◌, ◌*◌, ◌/◌, ◌≤◌, ◌<◌, ◌≡◌, refl, arith, not, ◌||◌, ◌==◌, true, false, Bool, min, leb,
  ltb, inl, inr, Bool-cases, ap, ◌∙◌, sym, subst,
}
use komari_agent.Shared.Results.{ok}
use komari_agent.Shared.Int.{ℤ, pos, negsuc, pos_part, ltb_ℤ, int64}
use komari_agent.Uploads.Spec.{
  Args, UploadSpec, eq_ℤ, quotient, chunk_size_of, count_of, max_transfer_chunk_size, has_bad_signs,
  has_bad_chunk_size, has_bad_count, has_bad_offset, spec_of, parse_upload_stream_spec,
}

-- The number of chunks of a file, without wrap-around.
abbrev pub chunks_of : ℕ → ℕ → ℕ
chunks_of total chunk = (total + chunk - 1) / chunk

-- A chunk of a file: where it starts, and how long it is.
pub record IsRange (s : UploadSpec) : Type 0 where
  pub chunk_positive : 0 < s.chunk_size
  pub chunk_bounded : s.chunk_size ≤ max_transfer_chunk_size
  pub count : s.chunk_count ≡ chunks_of s.total_size s.chunk_size
  pub index : s.chunk_index < s.chunk_count
  pub start : s.offset ≡ s.chunk_index * s.chunk_size
  pub before_end : s.offset < s.total_size
  pub length : s.expected ≡ min s.chunk_size (s.total_size - s.offset)

eq_ℤ-pos : (a b : ℤ) → eq_ℤ a b ≡ true → a ≡ b
eq_ℤ-pos (pos a) (pos b) h = ground arith
eq_ℤ-pos (pos a) (negsuc b) h = ground arith
eq_ℤ-pos (negsuc a) (pos b) h = ground arith
eq_ℤ-pos (negsuc a) (negsuc b) h = ground arith

int64_small : (n : ℕ) → n < 9223372036854775808 → int64 n ≡ pos n
int64_small n h = ground arith

-- A sum that wraps around is negative, so it is no positive count.
int64_large : (n : ℕ) → 9223372036854775808 ≤ n → n < 18446744073709551616 → pos_part (int64 n) ≡ 0
int64_large n h k = ground arith

positive_of : (z : ℤ) → not (ltb_ℤ (pos 0) z) ≡ false → (z ≡ pos (pos_part z)) × (0 < pos_part z)
positive_of (pos n) h = (refl, ground arith)
positive_of (negsuc n) h = ground arith

natural_of : (z : ℤ) → ltb_ℤ z (pos 0) ≡ false → z ≡ pos (pos_part z)
natural_of (pos n) h = refl
natural_of (negsuc n) h = ground arith

at_most : (z : ℤ) (n : ℕ) → ltb_ℤ (pos n) z ≡ false → pos_part z ≤ n
at_most (pos m) n h = ground arith
at_most (negsuc m) n h = omega arith

below : (a b : ℤ) → not (ltb_ℤ a b) ≡ false → a ≡ pos (pos_part a) → pos_part a < pos_part b
below (pos a) (pos b) h e = ground arith
below (pos a) (negsuc b) h e = ground arith
below (negsuc a) b h e = ground arith

or_false : {b c : Bool} → (b || c) ≡ false → (b ≡ false) × (c ≡ false)
or_false h = ground arith

not_eq : (a b : ℤ) → not (eq_ℤ a b) ≡ false → a ≡ b
not_eq a b h = eq_ℤ-pos a b (ground arith)

module _ (a : Args) where
  signs_of :
      has_bad_signs a ≡ false
      → (a.offset ≡ pos (pos_part a.offset))
        × (a.chunk_count ≡ pos (pos_part a.chunk_count))
        × (0 < pos_part a.total_size)
  unfolding has_bad_signs
  signs_of h =
      let (h', t) = or_false h in
      let (o, c) = or_false h' in
      (natural_of a.offset o, (positive_of a.chunk_count c).0, (positive_of a.total_size t).1)

  chunk_of :
      has_bad_chunk_size a ≡ false
      → (0 < pos_part (chunk_size_of a.chunk_size))
        × (pos_part (chunk_size_of a.chunk_size) ≤ max_transfer_chunk_size)
  unfolding has_bad_chunk_size
  chunk_of h =
      let (p, m) = or_false h in
      (
        (positive_of (chunk_size_of a.chunk_size) p).1,
        at_most (chunk_size_of a.chunk_size) max_transfer_chunk_size m,
      )

  count_lem :
      has_bad_count a ≡ false
      → a.chunk_count ≡ count_of (pos_part a.total_size) (pos_part (chunk_size_of a.chunk_size))
  unfolding has_bad_count
  count_lem h = not_eq a.chunk_count _ h

  offset_of :
      has_bad_offset a ≡ false
      → (pos_part a.chunk_index < pos_part a.chunk_count)
        × (a.offset ≡ int64 (pos_part a.chunk_index * pos_part (chunk_size_of a.chunk_size)))
  unfolding has_bad_offset
  offset_of h =
      let (h', e) = or_false h in
      let (n, l) = or_false h' in
      (below a.chunk_index a.chunk_count l (natural_of a.chunk_index n), not_eq a.offset _ e)

  -- Which tests an accepted chunk passed.
  parse-eq_ok :
      {s : UploadSpec}
      → parse_upload_stream_spec a ≡ ok s
      → (has_bad_signs a ≡ false)
        × (has_bad_chunk_size a ≡ false)
        × (has_bad_count a ≡ false)
        × (has_bad_offset a ≡ false)
        × (leb (pos_part a.total_size) (pos_part a.offset) ≡ false)
        × (s ≡ spec_of a)
  unfolding parse_upload_stream_spec
  parse-eq_ok h = ground arith

-- A positive count is a quotient.
count_of-divides :
    (total chunk n : ℕ)
    → 0 < n
    → pos n ≡ count_of total chunk
    → pos n ≡ quotient (int64 (total + chunk - 1)) chunk
count_of-divides total chunk n p e = elim (Bool-cases (total == 0 || chunk == 0)) [
  | inl empty ↦ let h : n ≡ 0 = ap pos_part (rw empty at e) in ground (arith, h)
  | inr counted ↦ rw counted at e
]

-- A quotient that is a positive number comes from a sum that did not wrap around.
count_of-pos :
    (total chunk n : ℕ)
    → total < 9223372036854775808
    → 0 < chunk
    → chunk ≤ max_transfer_chunk_size
    → 0 < n
    → pos n ≡ count_of total chunk
    → n ≡ chunks_of total chunk
count_of-pos total chunk n t c m p e =
    elim (Bool-cases (ltb (total + chunk - 1) 9223372036854775808)) [
      | inl small ↦
          let e' : pos n ≡ pos (chunks_of total chunk) =
            count_of-divides total chunk n p e
            ∙ ap (λ z. quotient z chunk) (int64_small (total + chunk - 1) (ground arith)) in
          ap pos_part e'
      | inr large ↦ absurd (
          negative (int64 (total + chunk - 1))
            (int64_large (total + chunk - 1) (ground arith) (omega (arith, t, m)))
            (count_of-divides total chunk n p e))
    ]
  where
    negative : (z : ℤ) → pos_part z ≡ 0 → pos n ≡ quotient z chunk → ⊥
    negative (pos k) zero' h = ground (arith, ap (λ i. i / chunk) zero', zero-div chunk)
    negative (negsuc k) zero' h = ground arith

-- An index below the number of chunks starts its chunk inside the file.
index_inside :
    (i total chunk : ℕ) → 0 < chunk → 0 < total → i < chunks_of total chunk → i * chunk < total
index_inside i total chunk c t h =
    let whole : (i + 1) * chunk ≤ total + chunk - 1 = (le-div_iff_mul-le c).0 (omega (arith, h)) in
    grind (arith, whole)

-- Every chunk that is accepted is a chunk of the file: it has the index and the offset of a chunk,
-- its length is the chunk size or what is left, and the number of chunks is the one of the file. No
-- sum or product of the 64-bit arguments wraps around to pass a test.
pub parse-IsRange :
    (a : Args) {s : UploadSpec}
    → pos_part a.total_size < 9223372036854775808
    → parse_upload_stream_spec a ≡ ok s
    → IsRange s
unfolding spec_of
parse-IsRange a {s} bound h =
    let passed = parse-eq_ok a h in
    let signs = signs_of a passed.0 in
    let chunk = chunk_of a passed.1 in
    let (index, product) = offset_of a passed.3 in
    let size = pos_part (chunk_size_of a.chunk_size) in
    let count : pos_part a.chunk_count ≡ chunks_of (pos_part a.total_size) size =
      count_of-pos (pos_part a.total_size) size (pos_part a.chunk_count) bound chunk.0 chunk.1
        (omega (arith, index)) (sym signs.1 ∙ count_lem a passed.2) in
    let inside =
      index_inside (pos_part a.chunk_index) (pos_part a.total_size) size chunk.0 signs.2
        (omega (arith, index, count)) in
    let start : pos_part a.offset ≡ pos_part a.chunk_index * size =
      ap pos_part
        (product ∙ int64_small (pos_part a.chunk_index * size) (omega (arith, inside, bound))) in
    subst IsRange (sym passed.5) (record {
      chunk_positive = chunk.0;
      chunk_bounded = chunk.1;
      count = count;
      index = index;
      start = start;
      before_end = omega (arith, inside, start);
      length = refl;
    })

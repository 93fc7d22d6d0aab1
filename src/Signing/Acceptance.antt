-- ===== src/Signing/Acceptance.antt =====
-- What an accepted instruction guarantees (core/signing/verify.go).
use mathlib.Core.List.{Memᴰ}
use komari_agent.Shared.{
  ℕ, ◌+◌, ◌≤◌, ◌<◌, ◌≡◌, ◌≢◌, refl, ap, ◌∙◌, inl, inr, Bool, true, Option, none, some, List, [],
  ◌∷◌, String, arith, eq_iff, Bool-cases, Option-cases, length, keep, max,
}
use komari_agent.Shared.Results.{Result, ok, err}
use komari_agent.Shared.Texts.{trim_space}
use komari_agent.Signing.Replay.{GuardFaults}
use komari_agent.Signing.Verify.{
  Crypto, Verifier, PinnedKey, Signature, Instruction, Verified, Envelope, VerifyError,
  is_candidate, find_key, verify_one, vouches, verify_signatures, check_binding, check_envelope,
  consume_nonce, verify,
}
use komari_agent.Signing.Threshold.{counts, verify_signatures_lem}

-- A pinned key that is valid at this time, for this algorithm, decodes to `raw`.
abbrev pub IsPinned : Crypto → List PinnedKey → String → ℕ → ℕ → List ℕ → Type 0
IsPinned crypto keys key_id algorithm now raw =
    (k : PinnedKey) × Memᴰ k keys
    × (is_candidate key_id algorithm now k ≡ true)
    × (crypto.decode_base64 k.value ≡ some raw)

find_key-IsPinned :
    (crypto : Crypto) (keys : List PinnedKey) (key_id : String) (algorithm now : ℕ) (raw : List ℕ)
    → find_key crypto keys key_id algorithm now ≡ some raw
    → IsPinned crypto keys key_id algorithm now raw
unfolding find_key
find_key-IsPinned crypto [] key_id algorithm now raw h = cc
find_key-IsPinned crypto (k ∷ keys) key_id algorithm now raw h =
    elim (Bool-cases (is_candidate key_id algorithm now k)) [
      | inr e ↦ deeper (find_key-IsPinned crypto keys key_id algorithm now raw (ground arith))
      | inl e ↦ elim (Option-cases (crypto.decode_base64 k.value)) [
        | inl d ↦ deeper (find_key-IsPinned crypto keys key_id algorithm now raw (ground arith))
        | inr (found, d) ↦ (k, Memᴰ.head refl, e, ground arith)
      ]
    ]
  where
    deeper :
        IsPinned crypto keys key_id algorithm now raw
        → IsPinned crypto (k ∷ keys) key_id algorithm now raw
    deeper (j, m, c, d) = (j, Memᴰ.tail m, c, d)

keep_witness {ℓ} :
    {A : Type ℓ} (p : A → Bool) (xs : List A)
    → 0 < length (keep p xs)
    → (x : A) × Memᴰ x xs × (p x ≡ true)
keep_witness p [] h = absurd (omega arith)
keep_witness p (x ∷ xs) h = elim (Bool-cases (p x)) [
  | inl e ↦ (x, Memᴰ.head refl, e)
  | inr e ↦ let (y, m, good) = keep_witness p xs (rw e at h) in (y, Memᴰ.tail m, good)
]

-- A signature by a pinned Ed25519 key over this payload, of an algorithm that the policy accepts.
abbrev pub IsVouchedFor : Crypto → Verifier → ℕ → String → Signature → Type 0
IsVouchedFor crypto v now payload s =
    (s.algorithm ≡ 1)
    × ((raw : List ℕ) × IsPinned crypto v.keys s.key_id s.algorithm now raw
        × (length raw ≡ 32)
        × (crypto.verify_ed25519 raw payload s.value ≡ true))

vouches-IsVouchedFor :
    (crypto : Crypto) (v : Verifier) (now : ℕ) (payload : String) (s : Signature)
    → vouches crypto v now payload s ≡ true
    → IsVouchedFor crypto v now payload s
unfolding vouches verify_one
vouches-IsVouchedFor crypto v now payload s h =
    by_key (find_key crypto v.keys s.key_id s.algorithm now) refl
  where
    by_key :
        (o : Option (List ℕ))
        → find_key crypto v.keys s.key_id s.algorithm now ≡ o
        → IsVouchedFor crypto v now payload s
    by_key none e = cc (rw (e, vouches) at h)
    by_key (some raw) e = (
      ground arith,
      (
        raw,
        find_key-IsPinned crypto v.keys s.key_id s.algorithm now raw e,
        ground arith,
        ground arith,
      ),
    )

verify_signatures-count :
    (crypto : Crypto) (v : Verifier) (now : ℕ) (payload : String) (ss : List Signature)
    {ids : String}
    → verify_signatures crypto v now payload ss ≡ ok ids
    → max v.policy.minimum_signatures 1 ≤ length (keep (counts crypto v now payload) ss)
verify_signatures-count crypto v now payload ss h =
    ground (arith, verify_signatures_lem crypto v now payload ss)

-- The instruction is for this agent, carries a nonce and an expiry, has not expired by more than
-- two minutes, and is not dated more than two minutes ahead.
abbrev pub IsTimely : Verifier → Instruction → ℕ → Type 0
IsTimely v i now =
    (i.agent_id ≡ v.agent_id)
    × (trim_space i.nonce ≢ "")
    × (i.expires_at ≢ 0)
    × (now ≤ i.expires_at + 120000000000)
    × (i.issued_at ≤ now + 120000000000)

check_binding-IsTimely :
    (v : Verifier) (i : Instruction) (now : ℕ) → check_binding v i now ≡ ok tt → IsTimely v i now
unfolding check_binding
check_binding-IsTimely v i now h =
    ground (arith, eq_iff i.agent_id v.agent_id, eq_iff (trim_space i.nonce) "")

pub check_envelope-eq_ok :
    (crypto : Crypto) (v : Verifier) (now : ℕ) (e : Envelope) (i : Verified)
    → check_envelope crypto v now e ≡ ok i
    → (verify_signatures crypto v now e.payload e.signatures ≡ ok i.verified_by)
      × (crypto.unmarshal e.payload ≡ some i.instruction)
      × (check_binding v i.instruction now ≡ ok tt)
unfolding check_envelope
check_envelope-eq_ok crypto v now e i h = ground arith

-- The nonce decides whether the checked instruction is returned, not which one.
consume_nonce-eq_ok :
    (crypto : Crypto) (f : GuardFaults) (now : ℕ) (checked : Verified) (v : Verifier) {i : Verified}
    → (consume_nonce crypto f now checked v).0 ≡ ok i
    → checked ≡ i
unfolding consume_nonce
consume_nonce-eq_ok crypto f now checked v h = ground arith

pub verify-eq_ok :
    (crypto : Crypto) (f : GuardFaults) (now : ℕ) (e : Envelope) (v : Verifier) {i : Verified}
    → (verify crypto f now (some e) v).0 ≡ ok i
    → check_envelope crypto v now e ≡ ok i
unfolding verify
verify-eq_ok crypto f now e v {i} h = by_check (check_envelope crypto v now e) refl
  where
    by_check :
        (r : Result VerifyError Verified)
        → check_envelope crypto v now e ≡ r
        → check_envelope crypto v now e ≡ ok i
    by_check (err x) p = cc (rw (p, verify) at h)
    by_check (ok checked) p =
        let same = consume_nonce-eq_ok crypto f now checked v (rw (p, verify) at h) in
        p ∙ ap ok same

-- Whenever `Verify` returns an instruction, whatever the record of nonces and the faults: it is what
-- the payload decodes to, it is addressed to this agent and timely, the number of signatures that
-- count is at least the policy's (and at least one), and one of them was made over this very payload
-- by a pinned Ed25519 key that is valid now.
pub verify_sound :
    (crypto : Crypto) (f : GuardFaults) (now : ℕ) (e : Envelope) (v : Verifier) (i : Verified)
    → (verify crypto f now (some e) v).0 ≡ ok i
    → (crypto.unmarshal e.payload ≡ some i.instruction)
      × IsTimely v i.instruction now
      × (max v.policy.minimum_signatures 1
          ≤ length (keep (counts crypto v now e.payload) e.signatures))
      × ((s : Signature) × Memᴰ s e.signatures × IsVouchedFor crypto v now e.payload s)
verify_sound crypto f now e v i h =
    let (signed, decoded, bound) =
      check_envelope-eq_ok crypto v now e i (verify-eq_ok crypto f now e v h) in
    let count = verify_signatures-count crypto v now e.payload e.signatures signed in
    let (s, m, good) =
      keep_witness (counts crypto v now e.payload) e.signatures (omega (arith, count)) in
    let vouched : vouches crypto v now e.payload s ≡ true = ground arith in
    (
      decoded,
      check_binding-IsTimely v i.instruction now bound,
      count,
      (s, m, vouches-IsVouchedFor crypto v now e.payload s vouched),
    )

-- ===== src/Signing/Threshold.antt =====
-- What signatures the policy accepts (core/signing/verify.go), against a description that counts
-- the signatures which a pinned key vouches for.
use komari_agent.Shared.{
  ℕ, zero, suc, ◌≤◌, ◌≡◌, refl, sym, ap, ◌∙◌, Bool, true, not, ◌&&◌, ◌||◌, List, [], ◌∷◌, ◌++◌,
  String, arith, ltb, ◌==◌, if◌then◌else◌, length, keep, any, all, max, replicate,
}
use komari_agent.Shared.Results.{ok, err}
use mathlib.Core.Path.{fun_ext}
use mathlib.Core.List.{append-nil, append_assoc}
use komari_agent.Signing.Verify.{
  Crypto, Verifier, Signature, no_signature, present_unverified, too_few, contains, Tally, vouches,
  tally_one, tally, empty_tally, join, judge, verify_signatures,
}

-- The key IDs of some signatures, in order.
abbrev pub ids : List Signature → List String
ids [] = []
ids (s ∷ ss) = s.key_id ∷ ids ss

module _ (crypto : Crypto) (v : Verifier) (now : ℕ) (payload : String) where
  -- The signature's algorithm is accepted by the policy.
  abbrev pub is_accepted : Signature → Bool
  is_accepted s = contains v.policy.accepted_algorithms s.algorithm

  -- The signature counts toward the threshold.
  abbrev pub counts : Signature → Bool
  counts s = is_accepted s && vouches crypto v now payload s

  -- The algorithm of the signature, if it is accepted, has a signature that counts.
  abbrev pub is_covered : List Signature → Signature → Bool
  is_covered all_signatures s =
      not (is_accepted s) || any (λ s'. s'.algorithm == s.algorithm && counts s') all_signatures

  key_ids-tally :
      (ss : List Signature) (t : Tally)
      → (tally crypto v now payload ss t).key_ids ≡ t.key_ids ++ ids (keep counts ss)
  unfolding tally tally_one
  key_ids-tally [] t = sym (append-nil t.key_ids)
  key_ids-tally (s ∷ ss) t = ground (
    arith,
    key_ids-tally ss (tally_one crypto v now payload s t),
    append_assoc t.key_ids (s.key_id ∷ []) (ids (keep counts ss)),
  )

  verified-tally :
      (a : ℕ) (ss : List Signature) (t : Tally)
      → contains (tally crypto v now payload ss t).verified a
        ≡ (contains t.verified a || any (λ s'. s'.algorithm == a && counts s') ss)
  unfolding tally tally_one
  verified-tally a [] t = ground arith
  verified-tally a (s ∷ ss) t =
      ground (arith, verified-tally a ss (tally_one crypto v now payload s t))

  present-tally :
      (p : ℕ → Bool) (ss : List Signature) (t : Tally)
      → all p (tally crypto v now payload ss t).present
        ≡ (all p t.present && all (λ s. not (is_accepted s) || p s.algorithm) ss)
  unfolding tally tally_one
  present-tally p [] t = ground arith
  present-tally p (s ∷ ss) t =
      ground (arith, present-tally p ss (tally_one crypto v now payload s t))

  length-ids : (ss : List Signature) → length (ids ss) ≡ length ss
  length-ids [] = refl
  length-ids (s ∷ ss) = omega (arith, length-ids ss)

  all_covered :
      (ss : List Signature)
      → let t = tally crypto v now payload ss empty_tally in
        all (contains t.verified) t.present ≡ all (is_covered ss) ss
  all_covered ss =
      let t = tally crypto v now payload ss empty_tally in
      present-tally (contains t.verified) ss empty_tally
      ∙ ap (λ (p : ℕ → Bool). all (λ s. not (is_accepted s) || p s.algorithm) ss)
          (fun_ext λ a. verified-tally a ss empty_tally)

  -- An envelope is accepted exactly when it has a signature, every accepted algorithm among its
  -- signatures is covered where the policy requires all, and at least the required number (at least
  -- one) of its signatures count. The keys that vouched are named in the order of the signatures.
  pub verify_signatures_lem :
      (ss : List Signature)
      → verify_signatures crypto v now payload ss ≡ (
          if length ss == 0
          then err no_signature
          else if v.policy.require_all && not (all (is_covered ss) ss)
          then err present_unverified
          else if ltb (length (keep counts ss)) (max v.policy.minimum_signatures 1)
          then err too_few
          else ok (join (ids (keep counts ss))))
  unfolding verify_signatures judge
  verify_signatures_lem [] = refl
  verify_signatures_lem (s ∷ ss) =
      rw
        (
          all_covered (s ∷ ss),
          key_ids-tally (s ∷ ss) empty_tally,
          length-ids (keep counts (s ∷ ss)),
        )
        (ground arith)

  keep-replicate :
      (s : Signature) (n : ℕ) → counts s ≡ true → length (keep counts (replicate n s)) ≡ n
  keep-replicate s zero h = refl
  keep-replicate s (suc n) h = rw h (omega (arith, keep-replicate s n h))

  all-replicate :
      (p : Signature → Bool) (s : Signature) (n : ℕ) → p s ≡ true → all p (replicate n s) ≡ true
  all-replicate p s zero h = refl
  all-replicate p s (suc n) h = rw h (all-replicate p s n h)

  is_covered_self :
      (s : Signature) (ss : List Signature) → counts s ≡ true → is_covered (s ∷ ss) s ≡ true
  is_covered_self s ss h = ground arith

  -- One signature that counts meets any threshold by being repeated: the policy counts signatures,
  -- not the keys that made them. It is accepted for every minimum, also where all algorithms must
  -- verify.
  pub repeated_signature_meets_threshold :
      (s : Signature) (n : ℕ)
      → counts s ≡ true
      → v.policy.minimum_signatures ≤ suc n
      → verify_signatures crypto v now payload (replicate (suc n) s)
        ≡ ok (join (ids (keep counts (replicate (suc n) s))))
  repeated_signature_meets_threshold s n h few =
      let ss = replicate (suc n) s in
      let covered : all (is_covered ss) ss ≡ true =
        all-replicate (is_covered ss) s (suc n) (is_covered_self s (replicate n s) h) in
      verify_signatures_lem ss ∙ rw (covered, keep-replicate s (suc n) h) (ground arith)

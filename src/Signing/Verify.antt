-- ===== src/Signing/Verify.antt =====
-- `Verifier` of core/signing/verify.go and recorded.go. The parameters are what the package calls
-- outside the repository: base64, Ed25519, the protobuf decoder. Bytes are texts or lists of
-- numbers; algorithms are their enum numbers, 1 for Ed25519.
use komari_agent.Shared.{
  ℕ, ◌+◌, Bool, true, false, not, ◌&&◌, ◌||◌, Option, none, some, List, [], ◌∷◌, ◌++◌, String,
  str_eq, ltb, ◌==◌, if◌then◌else◌, length, any, all, max,
}
use komari_agent.Shared.Results.{Result, ok, err, ◌>>=◌, ◌>>◌, reject_if}
use komari_agent.Shared.Texts.{trim_space}
use Prim.Native.String.{◌++◌ as ◌<>◌}
use komari_agent.Signing.Replay.{ReplayError, ReplayGuard, GuardFaults, consume}

pub record PinnedKey : Type 0 where
  pub key_id : String
  pub algorithm : ℕ
  pub value : String
  pub not_before : ℕ
  pub not_after : Option ℕ

pub record Policy : Type 0 where
  pub accepted_algorithms : List ℕ
  pub require_all : Bool
  pub minimum_signatures : ℕ

pub record Signature : Type 0 where
  pub algorithm : ℕ
  pub key_id : String
  pub value : String

-- `SignedInstruction`, with timestamps read by `timeOrZero`: absent and invalid ones are 0.
pub record Instruction : Type 0 where
  pub agent_id : String
  pub nonce : String
  pub instruction_type : String
  pub body : String
  pub issued_at : ℕ
  pub expires_at : ℕ

pub record Crypto : Type 0 where
  pub decode_base64 : String → Option (List ℕ)
  pub verify_ed25519 : List ℕ → String → String → Bool
  pub unmarshal : String → Option Instruction

pub record Identity : Type 0 where
  pub agent_id : String
  pub control_plane_keys : List PinnedKey
  pub policy_algorithms : List ℕ
  pub policy_require_all : Bool
  pub policy_minimum_signatures : ℕ

-- `replay` is absent where the caller passes nil.
pub record Verifier : Type 0 where
  pub agent_id : String
  pub keys : List PinnedKey
  pub policy : Policy
  pub replay : Option ReplayGuard

pub record Envelope : Type 0 where
  pub payload : String
  pub signatures : List Signature

pub record Verified : Type 0 where
  pub instruction : Instruction
  pub verified_by : String

pub data VerifyError : Type 0 where
  no_envelope no_keys no_payload no_signature present_unverified too_few undecodable : VerifyError
  other_agent blank_nonce without_expiry expired future missing_issue : VerifyError
  replayed : ReplayError → VerifyError

abbrev pub ed25519 : ℕ
ed25519 = 1

-- Two minutes in nanoseconds.
abbrev pub maximum_clock_skew : ℕ
maximum_clock_skew = 120000000000

-- `New`: a bundle without a list of algorithms accepts Ed25519.
unfoldable pub new_verifier : Identity → Option ReplayGuard → Verifier
new_verifier id replay = record {
  agent_id = id.agent_id;
  keys = id.control_plane_keys;
  policy = record {
    accepted_algorithms = elim id.policy_algorithms [ [] ↦ ed25519 ∷ [] | a ∷ rest ↦ a ∷ rest ];
    require_all = id.policy_require_all;
    minimum_signatures = id.policy_minimum_signatures;
  };
  replay = replay;
}

-- The tests of `findKey` on one pinned key.
unfoldable pub is_candidate : String → ℕ → ℕ → PinnedKey → Bool
is_candidate key_id algorithm now pinned =
    pinned.algorithm == algorithm
    && (str_eq key_id "" || str_eq pinned.key_id key_id)
    && not (not (pinned.not_before == 0) && ltb (now + maximum_clock_skew) pinned.not_before)
    && elim pinned.not_after [
      | none ↦ true
      | some not_after ↦ not (ltb (not_after + maximum_clock_skew) now)
    ]

-- `findKey`: the first candidate whose value decodes.
unfoldable pub find_key : Crypto → List PinnedKey → String → ℕ → ℕ → Option (List ℕ)
unfolding is_candidate
find_key crypto [] key_id algorithm now = none
find_key crypto (pinned ∷ keys) key_id algorithm now =
    let rest = find_key crypto keys key_id algorithm now in
    if is_candidate key_id algorithm now pinned
    then elim (crypto.decode_base64 pinned.value) [ none ↦ rest | some raw ↦ some raw ]
    else rest

-- `verifyOne`: the post-quantum algorithms and all unknown ones never verify.
unfoldable pub verify_one : Crypto → ℕ → List ℕ → String → String → Bool
verify_one crypto algorithm key payload signature =
    if algorithm == ed25519
    then length key == 32 && crypto.verify_ed25519 key payload signature
    else false

-- A map from algorithms to true, as the list of its keys.
abbrev pub contains : List ℕ → ℕ → Bool
contains xs a = any (λ x. x == a) xs

-- What the loop over the signatures collects.
pub record Tally : Type 0 where
  pub verified : List ℕ
  pub present : List ℕ
  pub key_ids : List String

-- Whether a pinned key that is valid now vouches for the payload by this signature.
unfoldable pub vouches : Crypto → Verifier → ℕ → String → Signature → Bool
unfolding find_key verify_one
vouches crypto v now payload s = elim (find_key crypto v.keys s.key_id s.algorithm now) [
  | none ↦ false
  | some key ↦ verify_one crypto s.algorithm key payload s.value
]

-- One round of the loop over the signatures.
unfoldable pub tally_one : Crypto → Verifier → ℕ → String → Signature → Tally → Tally
tally_one crypto v now payload s t =
    if not (contains v.policy.accepted_algorithms s.algorithm)
    then t
    else if vouches crypto v now payload s
    then record {
      verified = s.algorithm ∷ t.verified;
      present = s.algorithm ∷ t.present;
      key_ids = t.key_ids ++ (s.key_id ∷ []);
    }
    else record t { present = s.algorithm ∷ t.present }

unfoldable pub tally : Crypto → Verifier → ℕ → String → List Signature → Tally → Tally
unfolding tally_one
tally crypto v now payload [] t = t
tally crypto v now payload (s ∷ rest) t =
    tally crypto v now payload rest (tally_one crypto v now payload s t)

abbrev pub empty_tally : Tally
empty_tally = record { verified = []; present = []; key_ids = [] }

-- `strings.Join(ids, ",")`
unfoldable pub join : List String → String
join [] = ""
join (x ∷ []) = x
join (x ∷ y ∷ rest) = x <> ("," <> join (y ∷ rest))

-- The policy on what the loop collected: zero signatures required means one.
unfoldable pub judge : Policy → Tally → Result VerifyError String
unfolding join
judge p t = do
  reject_if (p.require_all && not (all (contains t.verified) t.present)) present_unverified
  reject_if (ltb (length t.key_ids) (max p.minimum_signatures 1)) too_few
  ok (join t.key_ids)

unfoldable pub verify_signatures :
    Crypto → Verifier → ℕ → String → List Signature → Result VerifyError String
verify_signatures crypto v now payload [] = err no_signature
verify_signatures crypto v now payload (s ∷ rest) =
    judge v.policy (tally crypto v now payload (s ∷ rest) empty_tally)

unfoldable pub check_binding : Verifier → Instruction → ℕ → Result VerifyError (Unit {0})
unfolding trim_space
check_binding v i now = do
  reject_if (not (str_eq i.agent_id v.agent_id)) other_agent
  reject_if (str_eq (trim_space i.nonce) "") blank_nonce
  reject_if (i.expires_at == 0) without_expiry
  reject_if (ltb (i.expires_at + maximum_clock_skew) now) expired
  reject_if (not (i.issued_at == 0) && ltb (now + maximum_clock_skew) i.issued_at) future

-- The verification before the nonce is consumed: nothing is changed by it.
unfoldable pub check_envelope : Crypto → Verifier → ℕ → Envelope → Result VerifyError Verified
check_envelope crypto v now e = do
  reject_if (length v.keys == 0) no_keys
  reject_if (str_eq e.payload "") no_payload
  verified_by ← verify_signatures crypto v now e.payload e.signatures
  i ← elim (crypto.unmarshal e.payload) [ none ↦ err undecodable | some i ↦ ok i ]
  check_binding v i now
  ok (record { instruction = i; verified_by = verified_by })

abbrev pub VerifyOutcome : Type 0
VerifyOutcome = Result VerifyError Verified × Verifier

unfoldable pub consume_nonce : Crypto → GuardFaults → ℕ → Verified → Verifier → VerifyOutcome
consume_nonce crypto f now i v = elim v.replay [
  | none ↦ (ok i, v)
  | some g ↦
      let (r, g') = consume f now i.instruction.nonce i.instruction.expires_at g in
      elim r [
        | ok _ ↦ (ok i, record v { replay = some g' })
        | err e ↦ (err (replayed e), record v { replay = some g' })
      ]
]

-- `Verify`, where `now` is what the clock returns during the call.
unfoldable pub verify : Crypto → GuardFaults → ℕ → Option Envelope → Verifier → VerifyOutcome
verify crypto f now none v = (err no_envelope, v)
verify crypto f now (some e) v = elim (check_envelope crypto v now e) [
  | err x ↦ (err x, v)
  | ok i ↦ consume_nonce crypto f now i v
]

-- `VerifyRecorded`: the same at the time of issue and without the record of nonces. The issue time
-- that it reads is valid, so it is not 0.
unfoldable pub verify_recorded : Crypto → GuardFaults → Option Envelope → Verifier → VerifyOutcome
verify_recorded crypto f none v = (err missing_issue, v)
verify_recorded crypto f (some e) v = elim (crypto.unmarshal e.payload) [
  | none ↦ (err undecodable, v)
  | some i ↦
      if i.issued_at == 0
      then (err missing_issue, v)
      else ((verify crypto f i.issued_at (some e) (record v { replay = none })).0, v)
]

-- ===== src/Credentials/Pins.antt =====
-- `verifyPinnedEnvelope` and `verifyRefreshV2Response` of core/enrollment/refresh_v2.go. Base64 and
-- Ed25519 are those of Signing; the strict JSON decoder, the digest of the issued credentials and
-- the number of bytes of a payload are parameters too.
use komari_agent.Shared.{
  ℕ, ◌+◌, Bool, true, false, not, ◌&&◌, ◌||◌, Option, none, some, List, [], ◌∷◌, String, str_eq,
  ◌==◌, ltb, if◌then◌else◌, length, any, max,
}
use komari_agent.Shared.Results.{Result, ok, err, ◌>>=◌, ◌>>◌, reject_if}
use komari_agent.Shared.Texts.{contains}
use komari_agent.Signing.Verify.{PinnedKey, Signature, Envelope, Crypto, ed25519}
use komari_agent.Credentials.Model.{
  CredentialError, rejected, no_signature, no_supported_algorithm, unverified_signature,
  insufficient_signatures, RefreshAttempt, Identity,
}
use komari_agent.Credentials.Store.{Done}

-- `AgentCredentials`; an expiry that is missing or invalid is absent.
pub record Issued : Type 0 where
  pub agent_id : String
  pub access_token : String
  pub access_expiry : Option ℕ
  pub refresh_token : String
  pub refresh_expiry : Option ℕ
  pub scopes : List String

-- `refreshV2Response`
pub record Proof : Type 0 where
  pub protocol : ℕ
  pub agent_id : String
  pub request_id : String
  pub generation : ℕ
  pub credentials_sha256 : String

pub record Codec : Type 0 where
  pub size : String → ℕ
  pub decode : String → Option Proof
  pub digest : Issued → Option String

-- The tests on one pin before its signature is verified.
unfoldable pub is_usable : ℕ → Signature → PinnedKey → Bool
is_usable now s pin =
    pin.algorithm == ed25519
    && not (not (str_eq pin.key_id "") && not (str_eq s.key_id pin.key_id))
    && not (ltb now pin.not_before)
    && elim pin.not_after [ none ↦ true | some t ↦ ltb now t ]

unfoldable pub accepts : Crypto → ℕ → String → Signature → PinnedKey → Bool
accepts crypto now payload s pin = is_usable now s pin && elim (crypto.decode_base64 pin.value) [
  | none ↦ false
  | some raw ↦ length raw == 32 && crypto.verify_ed25519 raw payload s.value
]

-- The first pin that accepts a signature.
unfoldable pub find_pin : Crypto → ℕ → String → Signature → List PinnedKey → Option PinnedKey
find_pin crypto now payload s [] = none
find_pin crypto now payload s (pin ∷ pins) =
    if accepts crypto now payload s pin then some pin else find_pin crypto now payload s pins

abbrev pub matching_pin : Crypto → ℕ → String → Signature → List PinnedKey → Option PinnedKey
matching_pin crypto now payload s pins =
    if s.algorithm == ed25519 then find_pin crypto now payload s pins else none

-- A key of a map that is a set.
abbrev pub add_value : String → List String → List String
add_value v vs = if contains vs v then vs else v ∷ vs

-- The loop over the signatures: the values of the pins that accepted one.
unfoldable pub collect :
    Crypto
    → ℕ
    → Identity
    → String
    → List Signature
    → List String
    → Result CredentialError (List String)
collect crypto now i payload [] verified = ok verified
collect crypto now i payload (s ∷ rest) verified =
    elim (matching_pin crypto now payload s i.control_plane_keys) [
      | some pin ↦ collect crypto now i payload rest (add_value pin.value verified)
      | none ↦
          if i.policy_require_all
          then err unverified_signature
          else collect crypto now i payload rest verified
    ]

abbrev pub is_supported : List ℕ → Bool
is_supported algorithms = length algorithms == 0 || any (λ a. a == ed25519) algorithms

-- `verifyPinnedEnvelope`
unfoldable pub verify_pinned_envelope : Crypto → ℕ → Envelope → Identity → Done
verify_pinned_envelope crypto now e i = do
  reject_if (length e.signatures == 0) no_signature
  reject_if (not (is_supported i.policy_algorithms)) no_supported_algorithm
  verified ← collect crypto now i e.payload e.signatures []
  reject_if (ltb (length verified) (max 1 i.policy_minimum_signatures)) insufficient_signatures

abbrev pub maximum_payload : ℕ
maximum_payload = 4096

-- The next generation, where there is one before it.
abbrev pub advances : Option ℕ → ℕ → Bool
advances none g = true
advances (some n) g = not (n == 18446744073709551615) && g == n + 1

-- The proof names this agent, this request and the next generation.
unfoldable pub is_bound : Identity → RefreshAttempt → Issued → Proof → Bool
is_bound i pending issued p =
    p.protocol == 2
    && str_eq p.agent_id i.agent_id
    && str_eq issued.agent_id i.agent_id
    && str_eq p.request_id pending.request_id
    && not (p.generation == 0)
    && advances i.generation p.generation

abbrev pub expires_after : ℕ → Option ℕ → Bool
expires_after now none = false
expires_after now (some t) = ltb now t

abbrev pub has_digest : Option String → String → Bool
has_digest none digest = false
has_digest (some d) digest = str_eq digest d

-- The credentials are those that were signed, both are new, and neither has expired.
unfoldable pub is_rotated : Codec → ℕ → Identity → Issued → Proof → Bool
is_rotated codec now i issued p =
    has_digest (codec.digest issued) p.credentials_sha256
    && not (str_eq issued.access_token "")
    && not (str_eq issued.refresh_token "")
    && not (str_eq issued.access_token i.access_token)
    && not (str_eq issued.refresh_token i.refresh_token)
    && expires_after now issued.access_expiry
    && expires_after now issued.refresh_expiry

unfoldable pub check_proof :
    Codec → ℕ → Identity → RefreshAttempt → Issued → Option Proof → Result CredentialError ℕ
check_proof codec now i pending issued none = err rejected
check_proof codec now i pending issued (some p) = do
  reject_if (not (is_bound i pending issued p)) rejected
  reject_if (not (is_rotated codec now i issued p)) rejected
  ok p.generation

unfoldable pub verify_pending :
    Crypto
    → Codec
    → ℕ
    → Envelope
    → Identity
    → Issued
    → Option RefreshAttempt
    → Result CredentialError ℕ
verify_pending crypto codec now e i issued none = err rejected
verify_pending crypto codec now e i issued (some pending) = do
  reject_if (ltb maximum_payload (codec.size e.payload)) rejected
  verify_pinned_envelope crypto now e i
  check_proof codec now i pending issued (codec.decode e.payload)

-- `verifyRefreshV2Response`: the generation of credentials that are accepted.
unfoldable pub verify_response :
    Crypto → Codec → ℕ → Option Envelope → Identity → Option Issued → Result CredentialError ℕ
verify_response crypto codec now (some e) i (some issued) =
    verify_pending crypto codec now e i issued i.pending_refresh
verify_response crypto codec now none i issued = err rejected
verify_response crypto codec now (some e) i none = err rejected

-- ===== src/Host/Trust.antt =====
-- `Trust` and its `Validate` (core/hostops/authorization.go), `ValidService` (core/hostops/manifest.go)
-- and `VerifyRelease` (core/hostops/release.go). Parsing of URLs and of release payloads, base64,
-- Ed25519 and SHA-256 are parameters.
use Prim.Native.Char.{code}
use komari_agent.Shared.{
  ℕ, ◌+◌, Bool, true, false, not, ◌&&◌, ◌||◌, Option, none, some, List, [], ◌∷◌, ◌++◌, String,
  str_eq, ◌==◌, ltb, leb, length, any, all,
}
use komari_agent.Shared.Results.{Result, ok, err, ◌>>◌, reject_if}
use komari_agent.Signing.Verify.{PinnedKey, Identity, Crypto, VerifyError, ed25519}

pub data HostError : Type 0 where
  bad_endpoint incomplete_trust bad_keys : HostError
  missing_revision missing_operation type_mismatch unencodable other_body binding_mismatch :
      HostError
  approval_expired bad_action conflicting_actions lease_mismatch : HostError
  unsupported_mode other_user identity_action_mismatch exceeds_ceilings no_release_key : HostError
  helper_action_mismatch no_actions no_service_user restriction_changed : HostError
  untrusted_release undecodable_release wrong_release wrong_artifact : HostError
  unverified : VerifyError → HostError

abbrev pub Done : Type 0
Done = Result HostError (Unit {0})

pub record Trust : Type 0 where
  pub version : ℕ
  pub agent_id : String
  pub endpoint : String
  pub service_id : String
  pub service_user : String
  pub panel_keys : List PinnedKey
  pub release_keys : List PinnedKey

-- What `url.Parse` returns, as far as it is read.
pub record Url : Type 0 where
  pub scheme : String
  pub host : String
  pub hostname : String
  pub has_user : Bool
  pub raw_query : String
  pub fragment : String

-- `Identity`: the protected pins, one signature at least.
abbrev pub identity_of : Trust → Identity
identity_of t = record {
  agent_id = t.agent_id;
  control_plane_keys = t.panel_keys;
  policy_algorithms = ed25519 ∷ [];
  policy_require_all = false;
  policy_minimum_signatures = 1;
}

abbrev pub is_name_code : ℕ → Bool
is_name_code c =
    (leb 97 c && leb c 122)
    || (leb 65 c && leb c 90)
    || (leb 48 c && leb c 57)
    || c == 95
    || c == 46
    || c == 45

-- Every character is one that a name may have; all of these are one byte long.
abbrev pub has_name_codes : String → Bool
has_name_codes String.[] = true
has_name_codes (String.◌∷◌ c s) = is_name_code (code c) && has_name_codes s

abbrev pub size : String → ℕ
size String.[] = 0
size (String.◌∷◌ c s) = size s + 1

abbrev pub has_dash : String → Bool
has_dash String.[] = false
has_dash (String.◌∷◌ c s) = code c == 45

-- `ValidService`. A name with other characters is refused, so its size may count characters.
unfoldable pub valid_service : String → Bool
valid_service name =
    not (str_eq name "") && leb (size name) 128 && not (has_dash name) && has_name_codes name

abbrev pub is_loopback : String → Bool
is_loopback h = str_eq h "127.0.0.1" || str_eq h "::1"

unfoldable pub is_endpoint : Option Url → Bool
is_endpoint none = false
is_endpoint (some u) =
    not (str_eq u.host "")
    && (str_eq u.scheme "https" || (str_eq u.scheme "http" && is_loopback u.hostname))
    && not u.has_user
    && str_eq u.raw_query ""
    && str_eq u.fragment ""

abbrev pub is_key_size : Option (List ℕ) → Bool
is_key_size none = false
is_key_size (some raw) = length raw == 32

unfoldable pub is_named_key : Crypto → PinnedKey → Bool
is_named_key crypto k =
    is_key_size (crypto.decode_base64 k.value) && not (str_eq k.key_id "") && k.algorithm == ed25519

unfoldable pub validate : Crypto → (String → Option Url) → Trust → Done
validate crypto parse t = do
  reject_if (not (is_endpoint (parse t.endpoint))) bad_endpoint
  reject_if
      (not (t.version == 2)
        || str_eq t.agent_id ""
        || not (valid_service t.service_id)
        || not (valid_service t.service_user)
        || length t.panel_keys == 0)
      incomplete_trust
  reject_if (not (all (is_named_key crypto) (t.panel_keys ++ t.release_keys))) bad_keys

pub record ReleaseManifest : Type 0 where
  pub payload : String
  pub key_id : String
  pub signature : String

pub record ReleasePayload : Type 0 where
  pub schema : String
  pub component : String
  pub version : String
  pub os : String
  pub arch : String
  pub sha256 : String

-- JSON in both directions, the digest of a binary in hexadecimal, and the platform of the agent.
pub record ReleaseCodec : Type 0 where
  pub decode : String → Option ReleasePayload
  pub encode : ReleasePayload → Option String
  pub digest : List ℕ → String
  pub os : String
  pub arch : String

abbrev pub not_over : Option ℕ → ℕ → Bool
not_over none now = true
not_over (some t) now = ltb now t

abbrev pub verifies : Crypto → Option (List ℕ) → ReleaseManifest → Bool
verifies crypto none m = false
verifies crypto (some raw) m = length raw == 32 && crypto.verify_ed25519 raw m.payload m.signature

-- A release key that vouches for a manifest.
unfoldable pub signs_release : Crypto → ℕ → ReleaseManifest → PinnedKey → Bool
signs_release crypto now m k =
    k.algorithm == ed25519
    && str_eq k.key_id m.key_id
    && leb k.not_before now
    && not_over k.not_after now
    && verifies crypto (crypto.decode_base64 k.value) m

abbrev pub is_canonical : Option String → String → Bool
is_canonical none payload = false
is_canonical (some text) payload = str_eq text payload

unfoldable pub is_rescue_release : ReleaseCodec → ReleaseManifest → ReleasePayload → Bool
is_rescue_release codec m p =
    is_canonical (codec.encode p) m.payload
    && str_eq p.schema "komari.release.v1"
    && str_eq p.component "komari-agent-rescue"
    && not (str_eq p.version "")
    && str_eq p.os codec.os
    && str_eq p.arch codec.arch

unfoldable pub check_release :
    ReleaseCodec
    → ReleaseManifest
    → List ℕ
    → Option ReleasePayload
    → Result HostError ReleasePayload
check_release codec m binary none = err undecodable_release
check_release codec m binary (some p) = do
  reject_if (not (is_rescue_release codec m p)) wrong_release
  reject_if (not (str_eq p.sha256 (codec.digest binary))) wrong_artifact
  ok p

-- `VerifyRelease`
unfoldable pub verify_release :
    Crypto → ReleaseCodec → ℕ → Trust → ReleaseManifest → List ℕ → Result HostError ReleasePayload
verify_release crypto codec now t m binary = do
  reject_if (not (any (signs_release crypto now m) t.release_keys)) untrusted_release
  check_release codec m binary (codec.decode m.payload)

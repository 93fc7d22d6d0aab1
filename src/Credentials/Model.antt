-- ===== src/Credentials/Model.antt =====
-- `Identity` and `RefreshAttempt` of core/credentials/store.go, with the tests on expiry. Times are
-- nanoseconds, 0 for the zero time; a pinned key is that of Signing.
use komari_agent.Shared.{
  ℕ, ◌+◌, Bool, true, false, Option, List, String, str_eq, ◌==◌, ltb, if◌then◌else◌,
}
use komari_agent.Signing.Verify.{PinnedKey}

-- A request that fails has the status code of its error.
pub data CredentialError : Type 0 where
  not_enrolled commit_conflict generation_skipped io_failed undecodable : CredentialError
  no_refresh_token no_pending_refresh no_pinned_keys unsigned_request : CredentialError
  no_client : CredentialError
  rejected no_signature no_supported_algorithm unverified_signature : CredentialError
  insufficient_signatures : CredentialError
  request_failed : ℕ → CredentialError

pub record RefreshAttempt : Type 0 where
  pub request_id : String
  pub started_at : ℕ

pub record Identity : Type 0 where
  pub endpoint : String
  pub agent_id : String
  pub private_key : String
  pub public_key : String
  pub key_id : String
  pub generation : Option ℕ
  pub pending_refresh : Option RefreshAttempt
  pub access_token : String
  pub access_token_expires_at : ℕ
  pub refresh_token : String
  pub refresh_token_expires_at : ℕ
  pub scopes : List String
  pub control_plane_keys : List PinnedKey
  pub policy_algorithms : List ℕ
  pub policy_require_all : Bool
  pub policy_minimum_signatures : ℕ
  pub enrolled_at : ℕ
  pub updated_at : ℕ

-- Five minutes.
abbrev pub refresh_skew : ℕ
refresh_skew = 300000000000

abbrev pub needs_refresh : ℕ → Identity → Bool
needs_refresh now i =
    if str_eq i.access_token ""
    then true
    else if i.access_token_expires_at == 0
    then false
    else ltb i.access_token_expires_at (now + refresh_skew)

abbrev pub refresh_expired : ℕ → Identity → Bool
refresh_expired now i =
    if str_eq i.refresh_token ""
    then true
    else if i.refresh_token_expires_at == 0
    then false
    else ltb i.refresh_token_expires_at now

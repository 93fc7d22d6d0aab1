-- ===== src/Credentials/Rotation.antt =====
-- A rotation of the credentials: `Refresh` of core/enrollment/client.go between `BeginRefresh` and
-- `CommitRefresh`, as `refreshCredentials` of clientcore/client.go composes them. What the control
-- plane answers is part of the environment, and so is whether the request can be signed.
use komari_agent.Shared.{
  ℕ, ◌+◌, Bool, false, not, ◌&&◌, ◌||◌, Option, none, some, List, [], ◌∷◌, String, str_eq, ◌==◌,
  ltb, if◌then◌else◌, length, from_option, is_some,
}
use komari_agent.Shared.Results.{Result, ok, err, ◌>>=◌, ◌>>◌, reject_if}
use komari_agent.Shared.Texts.{trim_space}
use komari_agent.Signing.Verify.{PinnedKey, Envelope, Crypto, ed25519}
use komari_agent.Credentials.Model.{
  CredentialError, no_refresh_token, no_pending_refresh, no_pinned_keys, unsigned_request,
  no_client, rejected, request_failed, Identity,
}
use komari_agent.Credentials.Store.{
  World, Faults, Done, answer, Trust, with_trust, begin_refresh, commit_refresh,
}
use komari_agent.Credentials.Pins.{Issued, Codec, verify_response}

pub data Reply : Type 0 where
  failed : ℕ → Reply
  answered : Option Envelope → Option Issued → Reply

-- `bundle` is what `FetchTrustBundle` returns where it does not fail.
pub record Exchange : Type 0 where
  pub has_client : Bool
  pub bundle : Option Trust
  pub signs : Bool
  pub reply : Reply

pub record Services : Type 0 where
  pub crypto : Crypto
  pub codec : Codec

unfoldable pub fetched : Option Trust → Identity → Result CredentialError Identity
fetched none i = err no_pinned_keys
fetched (some t) i = if length t.keys == 0 then err no_pinned_keys else ok (with_trust t i)

-- Trust is there before anything is rotated: a store without keys asks for them.
unfoldable pub establish_trust : Option Trust → Identity → Result CredentialError Identity
establish_trust bundle i = if not (length i.control_plane_keys == 0) then ok i else fetched bundle i

abbrev pub trust_of : Identity → Trust
trust_of i = record {
  keys = i.control_plane_keys;
  algorithms = i.policy_algorithms;
  require_all = i.policy_require_all;
  minimum = i.policy_minimum_signatures;
}

-- The identity with what was issued; an expiry that is absent is the zero time.
unfoldable pub with_credentials : ℕ → Issued → Identity → Identity
with_credentials generation c i =
    let keeps = str_eq c.refresh_token "" in
    let agent_id = if str_eq c.agent_id "" then i.agent_id else c.agent_id in
    let refresh_token = if keeps then i.refresh_token else c.refresh_token in
    let refresh_expiry =
      if keeps then i.refresh_token_expires_at else from_option 0 c.refresh_expiry in
    record i {
      generation = some generation;
      agent_id = agent_id;
      access_token = c.access_token;
      access_token_expires_at = from_option 0 c.access_expiry;
      refresh_token = refresh_token;
      refresh_token_expires_at = refresh_expiry;
      scopes = c.scopes;
    }

unfoldable pub accept_reply : Services → ℕ → Identity → Reply → Result CredentialError Identity
accept_reply s now i (failed code) = err (request_failed code)
accept_reply s now i (answered proof none) = err rejected
accept_reply s now i (answered proof (some issued)) = do
  generation ← verify_response s.crypto s.codec now proof i (some issued)
  ok (with_credentials generation issued i)

-- `Refresh`
unfoldable pub refresh : Services → ℕ → Exchange → Identity → Result CredentialError Identity
refresh s now x i = do
  reject_if (str_eq (trim_space i.refresh_token) "") no_refresh_token
  reject_if (not (is_some i.pending_refresh)) no_pending_refresh
  trusted ← establish_trust x.bundle i
  reject_if (not x.signs) unsigned_request
  accept_reply s now trusted x.reply

pub record HostTrust : Type 0 where
  pub agent_id : String
  pub endpoint : String
  pub panel_keys : List PinnedKey

-- The fields of `Client` that a rotation reads or writes.
pub record Client : Type 0 where
  pub world : World
  pub host_trust : Option HostTrust
  pub token : String
  pub last_error : Option CredentialError
  pub retry_at : ℕ

abbrev pub pins_of : HostTrust → Trust
pins_of h = record {
  keys = h.panel_keys;
  algorithms = ed25519 ∷ [];
  require_all = false;
  minimum = 1;
}

-- `identity`: protected host pins replace those of the file.
unfoldable pub current_identity : Client → Option Identity
current_identity c = elim c.world.identity [
  | none ↦ none
  | some i ↦ elim c.host_trust [
    | none ↦ some i
    | some h ↦
        if not (str_eq i.agent_id h.agent_id) || not (str_eq i.endpoint h.endpoint)
        then none
        else some (with_trust (pins_of h) i)
  ]
]

-- The environment of one rotation: the faults of its two writes, the clock, and a fresh request ID.
pub record Attempt : Type 0 where
  pub begin_faults : Faults
  pub commit_faults : Faults
  pub now : ℕ
  pub new_id : String
  pub exchange : Exchange

abbrev pub Rotated : Type 0
Rotated = Result CredentialError Identity × World

-- The commit of a result.
unfoldable pub conclude : Attempt → Identity → Result CredentialError Identity → World → Rotated
conclude a pending (err e) w = (err e, w)
conclude a pending (ok refreshed) w =
    answer refreshed (commit_refresh a.commit_faults a.now pending refreshed w)

-- The exchange under the given pins, once the request is recorded.
abbrev pub proceed : Services → Attempt → Trust → Rotated → Rotated
proceed s a t (err e, w) = (err e, w)
proceed s a t (ok started, w) =
    conclude a (with_trust t started) (refresh s a.now a.exchange (with_trust t started)) w

unfoldable pub rotate_with : Services → Attempt → Trust → World → Rotated
rotate_with s a t w = proceed s a t (begin_refresh a.begin_faults a.now a.new_id w)

unfoldable pub rotate_as : Services → Attempt → Option Identity → World → Rotated
rotate_as s a none w = (err no_refresh_token, w)
rotate_as s a (some i) w =
    if str_eq (trim_space i.refresh_token) ""
    then (err no_refresh_token, w)
    else if not a.exchange.has_client
    then (err no_client, w)
    else rotate_with s a (trust_of i) w

unfoldable pub rotate : Services → Attempt → Client → Rotated
rotate s a c = rotate_as s a (current_identity c) c.world

-- `permanentCredentialRejection`: the codes of an unauthenticated and of a forbidden call.
abbrev pub is_permanent_rejection : CredentialError → Bool
is_permanent_rejection (request_failed code) = code == 16 || code == 7
is_permanent_rejection _ = false

-- Five seconds, or fifteen minutes.
abbrev pub retry_delay : CredentialError → ℕ
retry_delay e = if is_permanent_rejection e then 900000000000 else 5000000000

-- What the deferred function records.
unfoldable pub settle : ℕ → Client → Rotated → Done × Client
settle now c (ok refreshed, w) =
    (ok tt, record c { world = w; token = refreshed.access_token; last_error = none; retry_at = 0 })
settle now c (err e, w) =
    (err e, record c { world = w; last_error = some e; retry_at = now + retry_delay e })

-- `refreshCredentials`: nothing to do where another call replaced the token, and no attempt before
-- the time that the last failure set.
unfoldable pub refresh_credentials : Services → Attempt → String → Client → Done × Client
refresh_credentials s a old_token c =
    if not (str_eq c.token old_token) && not (str_eq c.token "")
    then (ok tt, c)
    else elim c.last_error [
      | none ↦ settle a.now c (rotate s a c)
      | some e ↦ if ltb a.now c.retry_at then (err e, c) else settle a.now c (rotate s a c)
    ]

-- ===== src/Credentials/Tests.antt =====
-- A rotation at concrete values (core/credentials, core/enrollment, clientcore).
use komari_agent.Shared.{
  ◌+◌, ◌≤◌, ◌<◌, ◌≡◌, refl, true, false, none, some, List, [], ◌∷◌, str_eq, arith, if◌then◌else◌,
  ◌&&◌, replicate,
}
use komari_agent.Shared.Results.{ok}
use komari_agent.Shared.Texts.{trim_space}
use komari_agent.Signing.Verify.{PinnedKey, Envelope}
use komari_agent.Credentials.Model.{Identity}
use komari_agent.Credentials.Store.{
  stored, World, Faults, install, persist, write_temporary, begin_refresh, begin_identity,
  commit_refresh, check_generation, has_conflict, open_store,
}
use komari_agent.Credentials.Pins.{
  Issued, is_usable, accepts, find_pin, collect, verify_pinned_envelope, is_bound, is_rotated,
  check_proof, verify_pending, verify_response,
}
use komari_agent.Credentials.Rotation.{
  answered, Exchange, Services, establish_trust, with_credentials, accept_reply, refresh, Client,
  Attempt, current_identity, conclude, rotate_with, rotate_as, rotate,
}
use komari_agent.Credentials.Schedule.{credential_renewal_delay}
use komari_agent.Credentials.Calls.{Call, restart, commit, restarted, perform, run}
use komari_agent.Credentials.Pending.{undisturbed}
use komari_agent.Credentials.Resumption.{begin_again}
use komari_agent.Credentials.Rotations.{RotationOutcome, rotate_outcome}
use komari_agent.Credentials.Delays.{renewal_in_time}

abbrev no_faults : Faults
no_faults = record {
  read = false;
  encode = false;
  make_directory = false;
  create = false;
  chmod = false;
  write = false;
  sync = false;
  close = false;
  rename = false;
  sync_directory = false;
  remove = false;
}

abbrev full_disk : Faults
full_disk = record no_faults { write = true }

abbrev pinned : PinnedKey
pinned = record { key_id = "k"; algorithm = 1; value = "panel"; not_before = 0; not_after = none }

abbrev enrolled : Identity
enrolled = record {
  endpoint = "https://panel";
  agent_id = "agent";
  private_key = "private";
  public_key = "public";
  key_id = "agent-key";
  generation = some 4;
  pending_refresh = none;
  access_token = "access-4";
  access_token_expires_at = 9000000000000;
  refresh_token = "refresh-4";
  refresh_token_expires_at = 90000000000000;
  scopes = [];
  control_plane_keys = pinned ∷ [];
  policy_algorithms = [];
  policy_require_all = true;
  policy_minimum_signatures = 1;
  enrolled_at = 5;
  updated_at = 5;
}

abbrev world : World
world = record { identity = some enrolled; file = some (stored enrolled) }

abbrev issued : Issued
issued = record {
  agent_id = "agent";
  access_token = "access-5";
  access_expiry = some 20000000000000;
  refresh_token = "refresh-5";
  refresh_expiry = some 95000000000000;
  scopes = [];
}

abbrev envelope : Envelope
envelope = record {
  payload = "proof";
  signatures = record { algorithm = 1; key_id = "k"; value = "signed" } ∷ [];
}

abbrev services : Services
services = record {
  crypto = record {
    decode_base64 = λ v. if str_eq v "panel" then some (replicate 32 7) else none;
    verify_ed25519 = λ k p s. str_eq p "proof" && str_eq s "signed";
    unmarshal = λ _. none;
  };
  codec = record {
    size = λ _. 5;
    decode = λ p. some (record {
      protocol = 2;
      agent_id = "agent";
      request_id = "request-1";
      generation = 5;
      credentials_sha256 = "digest";
    });
    digest = λ _. some "digest";
  };
}

abbrev exchange : Exchange
exchange = record {
  has_client = true;
  bundle = none;
  signs = true;
  reply = answered (some envelope) (some issued);
}

abbrev attempt : Attempt
attempt = record {
  begin_faults = no_faults;
  commit_faults = no_faults;
  now = 8800000000000;
  new_id = "request-1";
  exchange = exchange;
}

abbrev client : Client
client = record {
  world = world;
  host_trust = none;
  token = "access-4";
  last_error = none;
  retry_at = 0;
}

rotate_outcome_example : RotationOutcome (some enrolled) (rotate services attempt client)
rotate_outcome_example = rotate_outcome services attempt client

abbrev pending : Identity
pending = record enrolled {
  pending_refresh = some (record { request_id = "request-1"; started_at = 8800000000000 });
  updated_at = 8800000000000;
}

abbrev refreshed : Identity
refreshed = record pending {
  generation = some 5;
  access_token = "access-5";
  access_token_expires_at = 20000000000000;
  refresh_token = "refresh-5";
  refresh_token_expires_at = 95000000000000;
}

-- The rotation as a whole, from the file to the file.
rotates :
    (rotate services attempt client).1.file
    ≡ some (stored (record refreshed { pending_refresh = none }))
unfolding rotate rotate_as current_identity rotate_with begin_refresh begin_identity conclude
    refresh trim_space establish_trust accept_reply verify_response verify_pending check_proof
    verify_pinned_envelope collect find_pin accepts is_usable is_bound is_rotated with_credentials
    install persist write_temporary commit_refresh check_generation has_conflict
rotates = refl

abbrev begun_world : World
begun_world = record { identity = some pending; file = some (stored pending) }

-- A commit that fails on a full disk, and a restart.
abbrev calls : List (Faults × Call)
calls = (full_disk, commit 8800000000000 pending refreshed) ∷ (no_faults, restart) ∷ []

begins : begin_refresh no_faults 8800000000000 "request-1" world ≡ (ok pending, begun_world)
unfolding begin_refresh begin_identity install persist write_temporary
begins = refl

undisturbed-calls : undisturbed calls begun_world ≡ true
unfolding perform commit_refresh check_generation has_conflict install persist write_temporary
    restarted open_store
undisturbed-calls = refl

begins_again :
    begin_refresh no_faults 8900000000000 "request-2" (run calls begun_world)
    ≡ (ok pending, begun_world)
unfolding run perform commit_refresh check_generation has_conflict install persist write_temporary
    restarted open_store begin_refresh begin_identity
begins_again = refl

begin_again_example :
    ((i : Identity) × ((run calls begun_world).file ≡ some (stored i))
      × (i.pending_refresh ≡ pending.pending_refresh))
    × (pending.pending_refresh ≡ pending.pending_refresh)
begin_again_example =
    begin_again no_faults no_faults 8800000000000 8900000000000 "request-1" "request-2" calls world
      refl refl begins refl undisturbed-calls begins_again

renewal_in_time_example :
    (1000 + credential_renewal_delay (λ _. 7) enrolled 1000 + 300000000000 ≤ 9000000000000)
    × (9000000000000 < 1000 + credential_renewal_delay (λ _. 7) enrolled 1000 + 360000000000)
renewal_in_time_example =
    renewal_in_time (λ _. 7) enrolled 1000 refl refl (omega arith) (omega arith) refl

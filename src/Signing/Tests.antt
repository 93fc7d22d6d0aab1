-- ===== src/Signing/Tests.antt =====
-- Runs of the verifier and of the record of nonces, and their theorems at concrete data.
use mathlib.Core.List.{Memᴰ}
use komari_agent.Shared.{
  ◌≤◌, ◌⊎◌, List, ◌≡◌, refl, not, ◌&&◌, true, false, none, some, [], ◌∷◌, str_eq, arith, ltb, ◌==◌,
  if◌then◌else◌, length, keep, all, max, replicate,
}
use komari_agent.Shared.Results.{ok, err}
use komari_agent.Shared.Texts.{trim_space}
use komari_agent.Signing.Replay.{
  already_used, unavailable, object, ReplayGuard, GuardFaults, new_replay_guard, load, drop_expired,
  evict, prune, persist, record_nonce, consume_loaded, consume,
}
use komari_agent.Signing.Verify.{
  Crypto, PinnedKey, Signature, Verifier, Envelope, Verified, no_signature, present_unverified,
  too_few, vouches, tally_one, tally, join, judge, verify_signatures, check_binding, check_envelope,
  consume_nonce, verify,
}
use komari_agent.Signing.Threshold.{
  counts, is_covered, ids, verify_signatures_lem, repeated_signature_meets_threshold,
}
use komari_agent.Signing.Acceptance.{IsTimely, IsVouchedFor, verify_sound}
use komari_agent.Signing.Replays.{Attempt, Event, call, ask, restart, after_all, nonce_used_once}
use komari_agent.Signing.Window.{replay_window}

abbrev no_guard_faults : GuardFaults
no_guard_faults = record {
  read = false;
  make_directory = false;
  create = false;
  chmod = false;
  write = false;
  sync = false;
  close = false;
  rename = false;
}

abbrev crypto : Crypto
crypto = record {
  decode_base64 = λ s. if str_eq s "key" then some (replicate 32 7) else none;
  verify_ed25519 = λ key payload signature. str_eq signature "good";
  unmarshal = λ payload. some (record {
    agent_id = "agent";
    nonce = "n";
    instruction_type = "rollback";
    body = "";
    issued_at = 1000000000000;
    expires_at = 2000000000000;
  });
}

abbrev guard : ReplayGuard
guard = new_replay_guard (some (object (("old", 1700000000000) ∷ [])))

abbrev pinned : PinnedKey
pinned = record { key_id = "k"; algorithm = 1; value = "key"; not_before = 0; not_after = none }

abbrev verifier : Verifier
verifier = record {
  agent_id = "agent";
  keys = pinned ∷ [];
  policy = record { accepted_algorithms = 1 ∷ []; require_all = true; minimum_signatures = 2 };
  replay = some guard;
}

abbrev signature : Signature
signature = record { algorithm = 1; key_id = "k"; value = "good" }

abbrev envelope : Envelope
envelope = record { payload = "payload"; signatures = signature ∷ signature ∷ [] }

abbrev accepted : Verified
accepted = record {
  instruction = record {
    agent_id = "agent";
    nonce = "n";
    instruction_type = "rollback";
    body = "";
    issued_at = 1000000000000;
    expires_at = 2000000000000;
  };
  verified_by = "k,k";
}

verify_runs : (verify crypto no_guard_faults 1500000000000 (some envelope) verifier).0 ≡ ok accepted
unfolding verify check_envelope verify_signatures judge tally tally_one vouches consume_nonce
    consume check_binding load consume_loaded prune drop_expired evict record_nonce
verify_runs = refl

verify_signatures_lem_example :
    let ss = signature ∷ signature ∷ [] in
    verify_signatures crypto verifier 1500000000000 "payload" ss ≡ (
      if length ss == 0
      then err no_signature
      else if true && not (all (is_covered crypto verifier 1500000000000 "payload" ss) ss)
      then err present_unverified
      else if ltb (length (keep (counts crypto verifier 1500000000000 "payload") ss)) (max 2 1)
      then err too_few
      else ok (join (ids (keep (counts crypto verifier 1500000000000 "payload") ss))))
verify_signatures_lem_example =
    verify_signatures_lem crypto verifier 1500000000000 "payload" (signature ∷ signature ∷ [])

repeated_signature_meets_threshold_example :
    verify_signatures crypto verifier 1500000000000 "payload" (signature ∷ signature ∷ [])
    ≡ ok "k,k"
unfolding vouches join
repeated_signature_meets_threshold_example =
    repeated_signature_meets_threshold crypto verifier 1500000000000 "payload" signature 1 refl
      (omega arith)

verify_sound_example :
    (crypto.unmarshal "payload" ≡ some accepted.instruction)
    × IsTimely verifier accepted.instruction 1500000000000
    × (max 2 1 ≤ length (keep (counts crypto verifier 1500000000000 "payload") envelope.signatures))
    × ((s : Signature) × Memᴰ s envelope.signatures
        × IsVouchedFor crypto verifier 1500000000000 "payload" s)
verify_sound_example =
    verify_sound crypto no_guard_faults 1500000000000 envelope verifier accepted verify_runs

abbrev attempt : Attempt
attempt = record { faults = no_guard_faults; now = 1600000000000; nonce = "m"; expires_at = 9 }

abbrev again : Attempt
again = record {
  faults = no_guard_faults;
  now = 1700000000000;
  nonce = " n";
  expires_at = 2000000000000;
}

consume_runs : (consume no_guard_faults 1500000000000 "n" 2000000000000 guard).0 ≡ ok tt
unfolding consume load consume_loaded prune drop_expired evict record_nonce trim_space
consume_runs = refl

abbrev between : List Event
between = call attempt ∷ restart ∷ ask no_guard_faults 1650000000000 "n" ∷ restart ∷ []

nonce_used_once_example :
    let late =
      consume no_guard_faults 1700000000000 " n" 2000000000000
        (after_all between (consume no_guard_faults 1500000000000 "n" 2000000000000 guard).1) in
    (late.0 ≡ err already_used) ⊎ ((no_guard_faults.read ≡ true) × (late.0 ≡ err unavailable))
unfolding trim_space load
nonce_used_once_example =
    nonce_used_once no_guard_faults 1500000000000 "n" 2000000000000 guard between again
      (omega arith) consume_runs (omega arith, (tt, (omega arith, (tt, tt)))) (omega arith) refl

signed_later :
    verify_signatures crypto verifier 2050000000000 "payload" (signature ∷ signature ∷ [])
    ≡ ok "k,k"
unfolding verify_signatures judge tally tally_one vouches
signed_later = refl

replay_window_example :
    (verify crypto no_guard_faults 2050000000000
      (some envelope)
      (verify crypto no_guard_faults 1500000000000 (some envelope) verifier).1).0
    ≡ ok accepted
unfolding persist load
replay_window_example =
    replay_window crypto no_guard_faults no_guard_faults 1500000000000 2050000000000 envelope
      verifier guard accepted refl (omega arith) verify_runs signed_later refl (omega arith)
      (omega arith) (omega arith)

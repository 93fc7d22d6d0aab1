-- ===== src/Privileged/Tests.antt =====
-- Runs of the privileged store, and its theorems at concrete data.
use komari_agent.Shared.{
  ◌≡◌, refl, ◌⊎◌, true, false, none, some, List, [], ◌∷◌, str_eq, arith, if◌then◌else◌,
}
use komari_agent.Shared.Results.{ok, err}
use komari_agent.Privileged.Model.{
  Settings, no_settings, hash, hash_input, PrivilegedConfig, settings_from_proto, Receipt, State,
  subset, Authorization, awaiting_agent, Revision,
}
use komari_agent.Privileged.Approval.{
  Error, is_current, is_bound, in_window, validate_authorization, validate_approval,
}
use komari_agent.Privileged.Commit.{
  Codec, World, no_faults, Call, file_hash, check_fresh, write_temporary, publish, write_state,
  commit, commit_result,
}
use komari_agent.Privileged.Operations.{prepare_approved, commit_approved, apply_approved}
use komari_agent.Privileged.Methods.{Method, pend, discard, roll_back, approve, perform, run}
use komari_agent.Privileged.Durability.{IsSynced, commit_atomic, only_flush_fails, unflushed_wedges}
use komari_agent.Privileged.Restriction.{Grants, widening_is_justified}
use komari_agent.Privileged.History.{IsSound, run-IsSound}
use komari_agent.Privileged.Approvals.{Applied, apply_approved_lem}
use komari_agent.Privileged.Freshness.{apply_approved_once}
use komari_agent.Privileged.Digest.{hash_input-injective}

abbrev codec : Codec
codec = record {
  digest = λ s. if str_eq s "old" then 1 else 2;
  sha256_hex = λ b. "digest";
  encode = λ s. some "new";
  decode = λ s. none;
  marshal = λ r. some "revision";
  same_authorization = λ a b. true;
}

abbrev call : Call
call = record { codec = codec; faults = no_faults; now = 1000 }

abbrev blank : State
blank = record {
  last_sequence = 3;
  active_signed_revision = "";
  outbox = [];
  rejected_receipts = [];
  applied_revision = 1;
  active = record no_settings { required_privilege_mode = 2; enable_gpu = true };
  previous = none;
  previous_revision = 0;
  pending_revision = 0;
  pending = none;
  pending_class = 0;
  pending_reasons = [];
  pending_task_id = "";
  pending_nonce = "";
  pending_expiry = 0;
  updated_at = 0;
}

abbrev world : World
world = record { store = record { state = blank; disk_hash = 1 }; file = some "old" }

abbrev wider : Settings
wider = record no_settings {
  required_privilege_mode = 2;
  remote_control_enabled = true;
  execution_enabled = true;
}

abbrev config : PrivilegedConfig
config = record {
  required_privilege_mode = 2;
  remote_control_enabled = some true;
  web_ssh_enabled = none;
  execution_enabled = some true;
  enable_gpu = none;
  rescue_helper_enabled = none;
}

abbrev authorization : Authorization
authorization = record {
  unknown = false;
  agent_id = "agent";
  service_id = "service";
  revision = 5;
  config_hash = "digest";
  approval_generation = 1;
  actions = [];
  target_privilege_mode = 2;
  nonce = "n";
  approved_by = "admin";
  issued_at = some (record { as_time = 900; is_valid = true });
  expires_at = some (record { as_time = 2000; is_valid = true });
}

abbrev approved : Revision
approved = record {
  agent_id = "agent";
  revision = 5;
  protocol_version = 2;
  approval_generation = 1;
  update_sequence = 4;
  installation_baseline = false;
  state = awaiting_agent;
  is_signed = true;
  privileged = some config;
  config_hash = "digest";
  authorization = some authorization;
  plan = none;
}

abbrev receipt : Receipt
receipt = record { id = "r"; kind = "applied"; payload = []; rejected = "" }

approved_runs : (apply_approved call approved 2 receipt world).0 ≡ ok tt
unfolding apply_approved validate_approval validate_authorization is_current is_bound in_window hash
    commit_approved prepare_approved commit_result commit write_state write_temporary publish
    check_fresh
approved_runs = refl

refused_identity : (apply_approved call approved 1 receipt world).1 ≡ world
unfolding apply_approved validate_approval validate_authorization is_current is_bound in_window hash
    commit_approved prepare_approved commit_result commit write_state write_temporary publish
    check_fresh
refused_identity = refl

widening_is_justified_example :
    let after = (perform call (approve approved 2 receipt) world).1.store.state.active in
    (subset after blank.active ≡ true) ⊎ Grants call (approve approved 2 receipt) blank after
widening_is_justified_example = widening_is_justified call (approve approved 2 receipt) world

abbrev waiting : State
waiting = record blank { pending = some wider; pending_revision = 5 }

apply_approved_lem_example : Applied call approved 2 receipt world
apply_approved_lem_example = apply_approved_lem call approved 2 receipt world approved_runs

abbrev between : List (Call × Method)
between = (call, discard) ∷ (call, pend approved) ∷ []

apply_approved_once_example :
    let w' = run between (apply_approved call approved 2 receipt world).1 in
    (e : Error) × (apply_approved call approved 2 receipt w' ≡ (err e, w'))
apply_approved_once_example =
    apply_approved_once call call approved approved 2 2 receipt receipt between world approved_runs
      refl (omega arith)

blank-IsSound : IsSound blank
blank-IsSound = record {
  pending_newer = λ h. cc;
  previous_older = λ h. cc;
  outbox_bounded = omega arith;
  rejected_bounded = omega arith;
}

abbrev calls : List (Call × Method)
calls = (call, pend approved) ∷ (call, approve approved 2 receipt) ∷ (call, roll_back) ∷ []

run-IsSound_example : IsSound (run calls world).store.state
run-IsSound_example = run-IsSound calls world blank-IsSound

commit_atomic_example :
    let (r, w') = commit call waiting world in
    ((r ≡ ok tt)
      × (w'.store.state ≡ record waiting { updated_at = 1000 })
      × (w'.file ≡ some "new")
      × IsSynced codec w')
    ⊎ ((e : Error) × (r ≡ err e)
        × (w'.store ≡ world.store)
        × (call.faults.sync_directory ≡ false → w'.file ≡ some "old"))
commit_atomic_example = commit_atomic call waiting world

abbrev stale : World
stale = record world { file = some "other" }

unflushed_wedges_example :
    let w' = (commit (record call { faults = only_flush_fails }) waiting world).1 in
    (w'.file ≡ some "new")
    × (w'.store ≡ world.store)
    × ((commit (record call { faults = no_faults; now = 2000 }) blank w').1 ≡ w')
unfolding file_hash
unflushed_wedges_example =
    unflushed_wedges (record call { faults = only_flush_fails }) waiting world no_faults 2000 blank
      refl refl refl (omega arith)

hash_input-injective_example : settings_from_proto (some config) ≡ wider
unfolding hash_input settings_from_proto
hash_input-injective_example =
    hash_input-injective (settings_from_proto (some config)) wider (omega arith) (omega arith) refl

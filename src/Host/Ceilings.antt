-- ===== src/Host/Ceilings.antt =====
-- The local ceilings in a host transaction (internal/hostcmd).
use komari_agent.Shared.{
  ℕ, ◌≡◌, refl, inl, inr, Bool, Bool-cases, true, false, not, ◌&&◌, ◌||◌, some, List, arith, String,
  ◌==◌, sym, ap, ◌∙◌, subst,
}
use komari_agent.Shared.Results.{ok}
use komari_agent.Privileged.Model.{Settings, bool_eq, settings_from_proto, Authorization, Revision}
use komari_agent.RuntimeConfig.Effective.{Policy, policy_allows, allows_remote_control}
use komari_agent.Host.Trust.{Trust}
use komari_agent.Host.Verify.{has_action}
use komari_agent.Host.Actions.{
  local_ceiling_violations, is_review, legacy_review, current_mode, is_empty, has_helper_mismatch,
  check_actions, validate_actions, reviewed_policy, applied_policy, next_policy,
}

-- What the ceilings allow, as a condition on the settings.
abbrev pub is_within : Policy → Settings → Bool → Bool
is_within p s installing =
    (not s.remote_control_enabled || allows_remote_control p)
    && (not s.web_ssh_enabled || p.allow_webssh)
    && (not s.execution_enabled || p.allow_execution)
    && (not s.enable_gpu || p.allow_gpu)
    && (not s.rescue_helper_enabled
        || (not p.force_deny_rescue_helper && (p.allow_rescue_helper || installing)))

violations_none :
    (p : Policy) (s : Settings) (installing : Bool)
    → is_empty (local_ceiling_violations p s installing) ≡ true
    → is_within p s installing ≡ true
unfolding local_ceiling_violations
violations_none p s installing h = ground (arith, h)

-- The tests that accepted actions passed.
check_actions-passed :
    (p : Policy) (t : Trust) (s : Settings) (a : Authorization) (user : String)
    → check_actions p t s a user ≡ ok tt
    → (current_mode user == p.privilege_mode ≡ true)
      × (bool_eq (has_action 1 a.actions) (not (current_mode user == a.target_privilege_mode))
          ≡ true)
      × (is_empty (local_ceiling_violations p s (has_action 2 a.actions)) ≡ true)
      × (has_helper_mismatch p s a.actions ≡ false)
unfolding check_actions
check_actions-passed p t s a user h = ground (arith, h)

bool_eq-eq : (b c : Bool) → bool_eq b c ≡ true → b ≡ c
bool_eq-eq true true h = refl
bool_eq-eq true false h = ground (arith, h)
bool_eq-eq false true h = ground (arith, h)
bool_eq-eq false false h = refl

helper_matches :
    (p : Policy) (s : Settings) (actions : List ℕ)
    → has_helper_mismatch p s actions ≡ false
    → (has_action 2 actions ≡ (s.rescue_helper_enabled && not p.helper_installed))
      × (has_action 3 actions ≡ (not s.rescue_helper_enabled && p.helper_installed))
helper_matches p s actions h =
    (bool_eq-eq _ _ (ground (arith, h)), bool_eq-eq _ _ (ground (arith, h)))

-- Accepted actions are the difference of the host and the revision, on a service that runs as the
-- policy says: the identity changes exactly where the mode of the user differs from the target, and
-- the helper is installed or removed exactly where what is installed differs from what is desired.
pub validate_actions_lem :
    (p : Policy) (t : Trust) (r : Revision) (a : Authorization) (user : String)
    → validate_actions p t r a user ≡ ok tt
    → (let s = settings_from_proto r.privileged in
        (current_mode user ≡ p.privilege_mode)
        × (has_action 1 a.actions ≡ not (p.privilege_mode == a.target_privilege_mode))
        × (has_action 2 a.actions ≡ (s.rescue_helper_enabled && not p.helper_installed))
        × (has_action 3 a.actions ≡ (not s.rescue_helper_enabled && p.helper_installed)))
unfolding validate_actions
validate_actions_lem p t r a user h =
    let s = settings_from_proto r.privileged in
    let (mode, identity, within, helper) = check_actions-passed p t s a user h in
    let same : current_mode user ≡ p.privilege_mode = ground (arith, mode) in
    let (installs, removes) = helper_matches p s a.actions helper in
    (
      same,
      bool_eq-eq (has_action 1 a.actions) _ identity
          ∙ ap (λ m. not (m == a.target_privilege_mode)) same,
      installs,
      removes,
    )

applied_policy-allows :
    (revision : ℕ) (s : Settings) (actions : List ℕ) (p : Policy)
    → is_within p s (has_action 2 actions) ≡ true
    → policy_allows s (some (applied_policy revision s actions p)) ≡ true
unfolding applied_policy policy_allows
applied_policy-allows revision s actions p h = ground (arith, h)

-- What a transaction may change of the ceilings: it releases the historical restriction of remote
-- control where that was reviewed, and it allows a helper that it installs.
pub record KeepsCeilings (p q : Policy) (reviewed installing : Bool) : Type 0 where
  pub remote_control : q.allow_remote_control ≡ p.allow_remote_control
  pub webssh : q.allow_webssh ≡ p.allow_webssh
  pub execution : q.allow_execution ≡ p.allow_execution
  pub gpu : q.allow_gpu ≡ p.allow_gpu
  pub denied_remote_control :
      q.force_deny_remote_control ≡ (p.force_deny_remote_control && not reviewed)
  pub denied_helper : q.force_deny_rescue_helper ≡ p.force_deny_rescue_helper
  pub rescue_helper : q.allow_rescue_helper ≡ (p.allow_rescue_helper || installing)

within_of :
    (p : Policy) (t : Trust) (r : Revision) (a : Authorization) (user : String)
    → validate_actions p t r a user ≡ ok tt
    → is_within p (settings_from_proto r.privileged) (has_action 2 a.actions) ≡ true
unfolding validate_actions
within_of p t r a user h =
    let s = settings_from_proto r.privileged in
    violations_none p s (has_action 2 a.actions) (check_actions-passed p t s a user h).2

abbrev Allowed : Policy → Trust → Revision → Authorization → String → Policy × Bool → Type 0
Allowed p t r a user (preview, reviewed) =
    validate_actions preview t r a user ≡ ok tt
    → (q : Policy) × (next_policy reviewed p r a ≡ ok q)
      × (policy_allows (settings_from_proto r.privileged) (some q) ≡ true)
      × KeepsCeilings p q reviewed (has_action 2 a.actions)

module _ (p : Policy) (t : Trust) (r : Revision) (a : Authorization) (user : String) where
  released :
      is_review p r ≡ true
      → Allowed p t r a user (record p { force_deny_remote_control = false }, true)
  unfolding next_policy reviewed_policy applied_policy
  released e h =
      let open_policy : Policy = record p {
        force_deny_remote_control = false;
        disable_source = "legacy-remote-control-reauthorized";
      } in
      (
        applied_policy r.revision (settings_from_proto r.privileged) a.actions open_policy,
        rw (next_policy, reviewed_policy, e) refl,
        applied_policy-allows r.revision (settings_from_proto r.privileged) a.actions open_policy
            (within_of (record p { force_deny_remote_control = false }) t r a user h),
        record {
          remote_control = refl;
          webssh = refl;
          execution = refl;
          gpu = refl;
          denied_remote_control = ground arith;
          denied_helper = refl;
          rescue_helper = refl;
        },
      )

  retained : Allowed p t r a user (p, false)
  unfolding next_policy reviewed_policy applied_policy
  retained h = (
    applied_policy r.revision (settings_from_proto r.privileged) a.actions p,
    refl,
    applied_policy-allows r.revision (settings_from_proto r.privileged) a.actions p
        (within_of p t r a user h),
    record {
      remote_control = refl;
      webssh = refl;
      execution = refl;
      gpu = refl;
      denied_remote_control = ground arith;
      denied_helper = refl;
      rescue_helper = refl;
    },
  )

-- A transaction whose actions are accepted under the policy, previewed as its review leaves it, writes
-- a policy: one that allows the settings of the revision, so that the daemon accepts them, and that
-- keeps every ceiling but a reviewed historical restriction and the consent to an installed helper.
pub validated_is_allowed :
    (p : Policy) (t : Trust) (r : Revision) (a : Authorization) (user : String)
    → validate_actions (legacy_review p r).0 t r a user ≡ ok tt
    → (q : Policy) × (next_policy (legacy_review p r).1 p r a ≡ ok q)
      × (policy_allows (settings_from_proto r.privileged) (some q) ≡ true)
      × KeepsCeilings p q (legacy_review p r).1 (has_action 2 a.actions)
unfolding legacy_review
validated_is_allowed p t r a user h = elim (Bool-cases (is_review p r)) [
  | inl e ↦
      let review : legacy_review p r ≡ (record p { force_deny_remote_control = false }, true) =
        rw (legacy_review, e) refl in
      subst (Allowed p t r a user) (sym review) (released p t r a user e) h
  | inr e ↦
      let review : legacy_review p r ≡ (p, false) = rw (legacy_review, e) refl in
      subst (Allowed p t r a user) (sym review) (retained p t r a user) h
]

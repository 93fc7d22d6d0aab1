-- ===== src/RuntimeConfig/Ceiling.antt =====
-- The ceiling that the installation's policy puts on what is in force
-- (core/runtimeconfig/effective.go).
use komari_agent.Shared.{ℕ, ◌≡◌, refl, ◌⊎◌, true, false, Option, none, some, str_eq, arith}
use komari_agent.Privileged.Model.{Settings, no_settings, State}
use komari_agent.RuntimeConfig.Model.{Snapshot}
use komari_agent.RuntimeConfig.Effective.{
  Policy, Config, EffectiveConfig, allows_remote_control, allows_rescue_helper, policy_allows,
  match_mode, cap, host_ceiling, apply_policy, close_session, inspect, effective_for_mode,
}

-- Every capability that is enabled is one that the policy allows, or there is no policy and none is.
abbrev pub IsAllowed : Option Policy → Settings → Type 0
IsAllowed none s = s ≡ no_settings
IsAllowed (some p) s =
    (s.remote_control_enabled ≡ true → allows_remote_control p ≡ true)
    × (s.web_ssh_enabled ≡ true → p.allow_webssh ≡ true)
    × (s.execution_enabled ≡ true → p.allow_execution ≡ true)
    × (s.enable_gpu ≡ true → p.allow_gpu ≡ true)
    × (s.rescue_helper_enabled ≡ true → allows_rescue_helper p ≡ true)
    × ((s.required_privilege_mode ≡ 0) ⊎ (s.required_privilege_mode ≡ p.privilege_mode))

host_ceiling-IsAllowed :
    (p : Policy) (state : Option State) (s : Settings)
    → IsAllowed (some p) s
    → IsAllowed (some p) (host_ceiling p state s)
unfolding host_ceiling
host_ceiling-IsAllowed p none s h = h
host_ceiling-IsAllowed p (some state) s h = ground arith

cap-IsAllowed : (p : Policy) (s : Settings) → IsAllowed (some p) (cap p (match_mode p s))
unfolding cap match_mode
cap-IsAllowed p s = ground arith

apply_policy-IsAllowed :
    (c : Config) (p : Option Policy) (state : Option State) (s : Settings)
    → str_eq c.service_manifest_file "" ≡ false
    → IsAllowed p (apply_policy c p state s)
unfolding apply_policy
apply_policy-IsAllowed c none state s h = rw h refl
apply_policy-IsAllowed c (some p) state s h =
    rw h (host_ceiling-IsAllowed p state (cap p (match_mode p s)) (cap-IsAllowed p s))

close_session-IsAllowed :
    (c : Config) (p : Option Policy) (s : Settings)
    → IsAllowed p s
    → IsAllowed p (close_session c s)
unfolding close_session
close_session-IsAllowed c none s h = ground arith
close_session-IsAllowed c (some p) s h = ground arith

-- What holds of a configuration that is in force, whatever the flags, the stores and the policy.
pub record IsCoherent (c : Config) (e : EffectiveConfig) : Type 0 where
  pub web_ssh_needs_remote :
      e.privileged.web_ssh_enabled ≡ true → e.privileged.remote_control_enabled ≡ true
  pub execution_needs_remote :
      e.privileged.execution_enabled ≡ true → e.privileged.remote_control_enabled ≡ true
  pub refused : c.disable_remote_control ≡ true → e.privileged.remote_control_enabled ≡ false
  pub same_remote : e.runtime.remote_control_enabled ≡ e.privileged.remote_control_enabled
  pub same_gpu : e.runtime.enable_gpu ≡ e.privileged.enable_gpu
  pub detailed_needs_gpu : e.runtime.detailed_gpu ≡ true → e.runtime.enable_gpu ≡ true

inspect-IsCoherent :
    (c : Config) (runtime_store : Option Snapshot) (state : Option State) (p : Option Policy)
    → IsCoherent c (inspect c runtime_store state p)
unfolding inspect close_session
inspect-IsCoherent c runtime_store state p = ground arith

effective_for_mode-IsCoherent :
    (c : Config) (actual : ℕ) (e : EffectiveConfig)
    → IsCoherent c e
    → IsCoherent c (effective_for_mode actual e)
unfolding effective_for_mode
effective_for_mode-IsCoherent c actual e h = ground arith

effective_for_mode-IsAllowed :
    (p : Option Policy) (actual : ℕ) (e : EffectiveConfig)
    → IsAllowed p e.privileged
    → IsAllowed p (effective_for_mode actual e).privileged
unfolding effective_for_mode
effective_for_mode-IsAllowed none actual e h = ground arith
effective_for_mode-IsAllowed (some p) actual e h = ground arith

-- Where the installation has a manifest, what is in force for a daemon is within the policy:
-- without a readable policy no capability is enabled, with one each capability that is enabled is
-- allowed. WebSSH and execution need remote control, a local refusal turns remote control off, and
-- the runtime view agrees with the privileged one.
pub effective-IsAllowed :
    (c : Config) (runtime_store : Option Snapshot) (state : Option State) (p : Option Policy)
    (actual : ℕ)
    → str_eq c.service_manifest_file "" ≡ false
    → IsAllowed p (effective_for_mode actual (inspect c runtime_store state p)).privileged
      × IsCoherent c (effective_for_mode actual (inspect c runtime_store state p))
unfolding inspect
effective-IsAllowed c runtime_store state p actual h = (
  effective_for_mode-IsAllowed p actual (inspect c runtime_store state p)
      (close_session-IsAllowed c p _ (apply_policy-IsAllowed c p state _ h)),
  effective_for_mode-IsCoherent c actual (inspect c runtime_store state p)
      (inspect-IsCoherent c runtime_store state p),
)

-- Settings that `PolicyAllows` accepts are in force as they are: the identity test and the ceiling
-- of the same policy leave them unchanged.
pub cap-policy_allows :
    (p : Policy) (s : Settings) → policy_allows s (some p) ≡ true → cap p (match_mode p s) ≡ s
unfolding cap match_mode policy_allows
cap-policy_allows p s h = ground arith

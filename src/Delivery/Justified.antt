-- ===== src/Delivery/Justified.antt =====
-- Why the settings in force change (clientcore/privileged_apply.go, clientcore/baseline.go).
use komari_agent.Shared.{Bool-cases, ◌≡◌, ◌⊎◌, refl, inl, inr, true, false, ◌&&◌, some, arith}
use komari_agent.Shared.Results.{ok}
use komari_agent.Privileged.Model.{
  no_settings, settings_eq, Settings, settings_from_proto, Revision,
}
use komari_agent.Privileged.Commit.{World}
use komari_agent.RuntimeConfig.Effective.{Policy, policy_allows}
use komari_agent.Delivery.Baseline.{
  local_baseline, Notice, Station, Surroundings, verify_v2, baseline_of,
}
use komari_agent.Delivery.Apply.{check_settings, has_changed, record_privileged}
use komari_agent.Delivery.Grants.{active_of}
use komari_agent.Delivery.Steps.{record_privileged_holds}

-- The settings are those of a revision that the panel confirmed during the call: it is verified and
-- the same approval, no local refusal stands against it, and the policy of the installation allows it.
pub record IsGranted (st : Station) (x : Surroundings) (r : Revision) (s : Settings) : Type 0 where
  pub current : Notice
  pub confirmed : x.current ≡ some current
  pub verified : verify_v2 st x current.signed ≡ ok tt
  pub unchanged : has_changed st r current.signed.revision ≡ false
  pub asked : s ≡ settings_from_proto current.signed.revision.privileged
  pub not_refused : (st.disable_remote_control && s.remote_control_enabled) ≡ false
  pub allowed : policy_allows s x.policy ≡ true

-- The settings are the baseline of the installation, or none at all, under a verified revision.
pub record IsBaseline (st : Station) (x : Surroundings) (n : Notice) (s : Settings) : Type 0 where
  pub initial : n.signed.revision.installation_baseline ≡ true
  pub verified : verify_v2 st x n.signed ≡ ok tt
  pub policy : Policy
  pub installed : x.start_policy ≡ some policy
  pub local : s ≡ baseline_of st x policy n.signed.revision
  pub not_refused : (st.disable_remote_control && s.remote_control_enabled) ≡ false
  pub bounded :
      (s ≡ record no_settings { required_privilege_mode = x.actual })
      ⊎ (policy_allows s (some policy) ≡ true)

abbrev pub SettingsChange : Station → Surroundings → Notice → Settings → Settings → Type 0
SettingsChange st x n old s = (s ≡ old) ⊎ (IsGranted st x n.signed.revision s ⊎ IsBaseline st x n s)

local_baseline-allowed :
    (st : Station) (p : Policy) → policy_allows (local_baseline st p) (some p) ≡ true
unfolding policy_allows local_baseline
local_baseline-allowed st p = ground arith

local_baseline-not_refused :
    (st : Station) (p : Policy)
    → (st.disable_remote_control && (local_baseline st p).remote_control_enabled) ≡ false
unfolding local_baseline
local_baseline-not_refused st p = ground arith

-- A baseline grants nothing, or what the installation allows.
baseline_bounded :
    (st : Station) (x : Surroundings) (p : Policy) (r : Revision)
    → (let s = baseline_of st x p r in
        ((st.disable_remote_control && s.remote_control_enabled) ≡ false)
        × ((s ≡ record no_settings { required_privilege_mode = x.actual })
            ⊎ (policy_allows s (some p) ≡ true)))
unfolding baseline_of
baseline_bounded st x p r =
    elim (Bool-cases (
      settings_eq (settings_from_proto r.privileged)
        (record no_settings { required_privilege_mode = x.actual }))) [
          | inl e ↦ rw (baseline_of, e) (ground arith, inl refl)
          | inr e ↦
              rw (baseline_of, e)
                (local_baseline-not_refused st p, inr (local_baseline-allowed st p))
        ]

settings_passed :
    (st : Station) (x : Surroundings) (s : Settings)
    → check_settings st x s ≡ ok tt
    → ((st.disable_remote_control && s.remote_control_enabled) ≡ false)
      × (policy_allows s x.policy ≡ true)
unfolding check_settings
settings_passed st x s h = (ground (arith, h), ground (arith, h))

-- Whatever the handler of a delivered revision does, returns or fails at, the settings in force
-- afterwards are those before it, or they are justified: a revision that the panel confirmed during
-- the call asks for them, which is verified, is the same approval, and is allowed by the policy of the
-- installation and by the local refusal of remote control; or they are the baseline that the
-- installation itself authorized, or no settings at all, under a verified revision.
pub settings_are_justified :
    (st : Station) (x : Surroundings) (n : Notice) (w : World)
    → SettingsChange st x n (active_of w) (active_of (record_privileged st x n w).1)
settings_are_justified st x n w =
    record_privileged_holds (SettingsChange st x n (active_of w)) st x n
      (λ current c v u k.
        let (refused, allowed) = settings_passed st x _ k in
        inr (
          inl (record {
            current = current;
            confirmed = c;
            verified = v;
            unchanged = u;
            asked = refl;
            not_refused = refused;
            allowed = allowed;
          })))
      (λ i p c v. inr (
        inr (record {
          initial = i;
          verified = v;
          policy = p;
          installed = c;
          local = refl;
          not_refused = (baseline_bounded st x p n.signed.revision).0;
          bounded = (baseline_bounded st x p n.signed.revision).1;
        })))
      w (inl refl)

-- ===== src/Host/Approvals.antt =====
-- What a verified revision and a verified operation rest on (core/hostops/authorization.go).
use mathlib.Core.List.{Memᴰ}
use komari_agent.Shared.{
  ◌⊎◌, ℕ, ◌≤◌, ◌≢◌, ◌∷◌, ◌≡◌, refl, inl, inr, Bool, Bool-cases, true, false, ◌&&◌, Option, none,
  some, List, [], arith, String, eq_iff, ap, ◌∙◌,
}
use komari_agent.Shared.Results.{Result, ok, err, Result-cases}
use komari_agent.Signing.Replay.{GuardFaults}
use komari_agent.Signing.Verify.{
  Crypto, Envelope, Signature, Verified, VerifyError, new_verifier, verify,
}
use komari_agent.Signing.Acceptance.{IsTimely, IsVouchedFor, verify_sound}
use komari_agent.Privileged.Model.{settings_from_proto, hash, Authorization, Revision}
use komari_agent.Privileged.Approval.{in_window}
use komari_agent.Privileged.Approvals.{IsWithin, in_window-IsWithin}
use komari_agent.Host.Trust.{Trust, identity_of}
use komari_agent.Host.Verify.{
  SignedRevision, Messages, check_encoded, check_body, verify_body, revision_kind,
  has_other_settings, verify_signed_revision, is_bound, has_action, are_distinct,
  check_authorization, verify_revision,
}

-- A protected key of the trust signed a payload that decodes to a timely instruction of the kind,
-- whose body is the encoded message, and the message has no field that is not known.
pub record IsSigned (crypto : Crypto) (now : ℕ) (t : Trust) (envelope : Option Envelope)
    (unknown : Bool) (encoded : Option String) (kind : String) : Type 0 where
  pub recognised : unknown ≡ false
  pub signed : Envelope
  pub present : envelope ≡ some signed
  pub verified : Verified
  pub decoded : crypto.unmarshal signed.payload ≡ some verified.instruction
  pub kind_of : verified.instruction.instruction_type ≡ kind
  pub body : encoded ≡ some verified.instruction.body
  pub timely : IsTimely (new_verifier (identity_of t) none) verified.instruction now
  pub agent : verified.instruction.agent_id ≡ t.agent_id
  pub signature : Signature
  pub member : Memᴰ signature signed.signatures
  pub vouched : IsVouchedFor crypto (new_verifier (identity_of t) none) now signed.payload signature

body_of : (o : Option String) (body : String) → check_encoded o body ≡ ok tt → o ≡ some body
body_of none body h = ground (arith, h)
body_of (some b) body h = ap some ((eq_iff b body).0 (ground (arith, h)))

module _ (crypto : Crypto) (f : GuardFaults) (now : ℕ) (t : Trust) where
  verify_body-IsSigned :
      (envelope : Option Envelope) (unknown : Bool) (encoded : Option String) (kind : String)
      → verify_body crypto f now t envelope unknown encoded kind ≡ ok tt
      → IsSigned crypto now t envelope unknown encoded kind
  unfolding verify_body check_body verify new_verifier
  verify_body-IsSigned none unknown encoded kind h = ground (arith, h)
  verify_body-IsSigned (some e) unknown encoded kind h =
      go (verify crypto f now (some e) (new_verifier (identity_of t) none)).0 refl h
    where
      go :
          (v : Result VerifyError Verified)
          → (verify crypto f now (some e) (new_verifier (identity_of t) none)).0 ≡ v
          → check_body unknown encoded kind v ≡ ok tt
          → IsSigned crypto now t (some e) unknown encoded kind
      go (err x) v h = ground (arith, h)
      go (ok i) v h =
          let (decoded, timely, _, (s, m, vouched)) =
            verify_sound crypto f now e (new_verifier (identity_of t) none) i v in
          record {
            recognised = ground (arith, h);
            signed = e;
            present = refl;
            verified = i;
            decoded = decoded;
            kind_of = (eq_iff i.instruction.instruction_type kind).0 (ground (arith, h));
            body = body_of encoded i.instruction.body (ground (arith, h));
            timely = timely;
            agent = timely.0;
            signature = s;
            member = m;
            vouched = vouched;
          }

-- The actions are among the three that are known, and none is repeated.
abbrev pub AreKnown : List ℕ → Type 0
AreKnown [] = Unit {0}
AreKnown (a ∷ actions) = (1 ≤ a) × (a ≤ 3) × (¬ Memᴰ a actions) × AreKnown actions

has_action-true : (n : ℕ) (actions : List ℕ) → Memᴰ n actions → has_action n actions ≡ true
has_action-true n [] m = elim m [ ]
has_action-true n (a ∷ actions) (Memᴰ.head e) = ground arith
has_action-true n (a ∷ actions) (Memᴰ.tail m) = ground (arith, has_action-true n actions m)

has_action-false : (n : ℕ) (actions : List ℕ) → has_action n actions ≡ false → ¬ Memᴰ n actions
has_action-false n actions h m = cc (has_action-true n actions m, h)

are_distinct-unseen :
    (seen actions : List ℕ) (n : ℕ)
    → are_distinct seen actions ≡ true
    → has_action n seen ≡ true
    → has_action n actions ≡ false
unfolding are_distinct
are_distinct-unseen seen [] n h k = refl
are_distinct-unseen seen (a ∷ actions) n h k =
    ground (arith, are_distinct-unseen (a ∷ seen) actions n)

are_distinct-AreKnown :
    (seen actions : List ℕ) → are_distinct seen actions ≡ true → AreKnown actions
unfolding are_distinct
are_distinct-AreKnown seen [] h = tt
are_distinct-AreKnown seen (a ∷ actions) h =
    let rest : are_distinct (a ∷ seen) actions ≡ true = ground (arith, h) in
    (
      ground (arith, h),
      ground (arith, h),
      has_action-false a actions (are_distinct-unseen (a ∷ seen) actions a rest (ground arith)),
      are_distinct-AreKnown (a ∷ seen) actions rest,
    )

-- An authorization of this agent, service and revision that is in force, for actions that agree.
pub record IsApproved (sha256_hex : List ℕ → String) (now : ℕ) (t : Trust) (r : Revision)
    : Type 0 where
  pub approval : Authorization
  pub given : r.authorization ≡ some approval
  pub owned : r.agent_id ≡ t.agent_id
  pub numbered : r.revision ≢ 0
  pub later : r.installation_baseline ≡ false
  pub recognised : approval.unknown ≡ false
  pub agent : approval.agent_id ≡ t.agent_id
  pub service : approval.service_id ≡ t.service_id
  pub revision : approval.revision ≡ r.revision
  pub settings : approval.config_hash ≡ hash sha256_hex (settings_from_proto r.privileged)
  pub generation : approval.approval_generation ≡ r.approval_generation
  pub generated : approval.approval_generation ≢ 0
  pub mode :
      approval.target_privilege_mode ≡ (settings_from_proto r.privileged).required_privilege_mode
  pub in_force : IsWithin now approval
  pub known : AreKnown approval.actions
  pub agree : (¬ Memᴰ 2 approval.actions) ⊎ (¬ Memᴰ 3 approval.actions)

agreed :
    (actions : List ℕ)
    → (has_action 2 actions && has_action 3 actions) ≡ false
    → (¬ Memᴰ 2 actions) ⊎ (¬ Memᴰ 3 actions)
agreed actions h = elim (Bool-cases (has_action 2 actions)) [
  | inl e ↦ inr (has_action-false 3 actions (rw e at h))
  | inr e ↦ inl (has_action-false 2 actions e)
]

check_authorization-passed :
    (now : ℕ) (t : Trust) (r : Revision) (o : Option Authorization)
    → check_authorization now t r o ≡ ok tt
    → (a : Authorization) × (o ≡ some a)
      × (is_bound t r a ≡ true)
      × (in_window now a.issued_at a.expires_at ≡ true)
      × (are_distinct [] a.actions ≡ true)
      × ((has_action 2 a.actions && has_action 3 a.actions) ≡ false)
unfolding check_authorization
check_authorization-passed now t r none h = ground (arith, h)
check_authorization-passed now t r (some a) h =
    (a, refl, ground (arith, h), ground (arith, h), ground (arith, h), ground (arith, h))

bound :
    (t : Trust) (r : Revision) (a : Authorization)
    → is_bound t r a ≡ true
    → ((r.revision ≢ 0)
        × (r.installation_baseline ≡ false)
        × (a.unknown ≡ false)
        × (a.approval_generation ≢ 0))
      × (a.agent_id ≡ t.agent_id)
      × (a.service_id ≡ t.service_id)
      × (a.revision ≡ r.revision)
      × (a.config_hash ≡ r.config_hash)
      × (a.approval_generation ≡ r.approval_generation)
      × (a.target_privilege_mode ≡ (settings_from_proto r.privileged).required_privilege_mode)
unfolding is_bound
bound t r a h = (
  (ground (arith, h), ground (arith, h), ground (arith, h), ground (arith, h)),
  (eq_iff a.agent_id t.agent_id).0 (ground (arith, h)),
  (eq_iff a.service_id t.service_id).0 (ground (arith, h)),
  ground (arith, h),
  (eq_iff a.config_hash r.config_hash).0 (ground (arith, h)),
  ground (arith, h),
  ground (arith, h),
)

own_settings :
    (m : Messages) (t : Trust) (r : SignedRevision)
    → has_other_settings m t r ≡ false
    → (r.revision.config_hash ≡ hash m.sha256_hex (settings_from_proto r.revision.privileged))
      × (r.revision.agent_id ≡ t.agent_id)
      × (r.unknown_settings ≡ false)
unfolding has_other_settings
own_settings m t r h = (
  (eq_iff r.revision.config_hash (hash m.sha256_hex (settings_from_proto r.revision.privileged))).0
      (ground (arith, h)),
  (eq_iff r.revision.agent_id t.agent_id).0 (ground (arith, h)),
  ground (arith, h),
)

-- A revision that passes is signed as a whole: a protected key of the trust signed a payload that
-- decodes to a timely instruction for this agent whose kind is that of a revision and whose body is
-- the encoded revision, and neither the revision nor its settings have a field that is not known. It
-- carries an authorization of this agent, this service and exactly these settings, in force now, for
-- known actions of which none is repeated and none contradicts another.
pub verify_revision_sound :
    (crypto : Crypto) (m : Messages) (f : GuardFaults) (now : ℕ) (t : Trust) (r : SignedRevision)
    → verify_revision crypto m f now t r ≡ ok tt
    → IsSigned crypto now t r.signature r.unknown (m.encode_revision r) revision_kind
      × (r.unknown_settings ≡ false)
      × IsApproved m.sha256_hex now t r.revision
unfolding verify_revision verify_signed_revision
verify_revision_sound crypto m f now t r h =
    elim (Result-cases
      (verify_body crypto f now t r.signature r.unknown (m.encode_revision r) revision_kind)) [
        | inr (x, e) ↦ ground (arith, h, e)
        | inl (_, e) ↦ elim (Bool-cases (has_other_settings m t r)) [
          | inl o ↦ ground (arith, h, e, o)
          | inr o ↦
              let c : check_authorization now t r.revision r.revision.authorization ≡ ok tt =
                ground (arith, h, e, o) in
              let (a, given, b, window, known, agree) =
                check_authorization-passed now t r.revision r.revision.authorization c in
              let (given_facts, agent, service, revision, digest, generation, mode) =
                bound t r.revision a b in
              let (digest', owned, known_settings) = own_settings m t r o in
              (
                verify_body-IsSigned crypto f now t r.signature r.unknown (m.encode_revision r)
                    revision_kind e,
                known_settings,
                record {
                  approval = a;
                  given = given;
                  owned = owned;
                  numbered = given_facts.0;
                  later = given_facts.1;
                  recognised = given_facts.2;
                  generated = given_facts.3;
                  agent = agent;
                  service = service;
                  revision = revision;
                  settings = digest ∙ digest';
                  generation = generation;
                  mode = mode;
                  in_force = in_window-IsWithin now a window;
                  known = are_distinct-AreKnown [] a.actions known;
                  agree = agreed a.actions agree;
                },
              )
        ]
      ]

-- ===== src/Credentials/Rotations.antt =====
-- What a whole rotation does to the identity (clientcore/client.go).
use komari_agent.Shared.{
  ℕ, ◌≡◌, refl, inl, inr, Bool, Bool-cases, true, false, not, Option, none, some, String, str_eq,
  sym, ap, ◌∙◌, subst, if◌then◌else◌, from_option,
}
use komari_agent.Shared.Results.{Result, ok, err}
use komari_agent.Shared.Texts.{trim_space}
use komari_agent.Credentials.Model.{no_client, CredentialError, RefreshAttempt, Identity}
use komari_agent.Credentials.Store.{
  Content, stored, World, Faults, Done, Trust, with_trust, persist, take_over, answer, install,
  with_pending, begin_identity, begin_refresh, committed, commit_refresh,
}
use komari_agent.Credentials.Pins.{Issued, advances}
use komari_agent.Credentials.Rotation.{
  Services, Attempt, Client, Rotated, with_credentials, refresh, current_identity, conclude,
  trust_of, rotate_with, rotate, rotate_as, proceed,
}
use komari_agent.Credentials.Agreement.{world}
use komari_agent.Credentials.Commits.{CommitOutcome, IsCommitted, commit_refresh_lem}
use komari_agent.Credentials.Refreshes.{IsRefresh, refresh-IsRefresh, trusted_differs_in_pins}

-- What a rotation may change of an identity, and the agent.
abbrev pub Core : Type 0
Core = String × String × String × Option ℕ

abbrev pub core_of : Identity → Core
core_of i = (i.agent_id, i.access_token, i.refresh_token, i.generation)

abbrev pub core : Option Identity → Option Core
core none = none
core (some i) = some (core_of i)

-- What holds after a rotation of an identity that succeeds.
pub record IsRotation (old : Core) (next : Identity) (w : World) : Type 0 where
  pub current : Identity
  pub memory : w.identity ≡ some current
  pub file : w.file ≡ some (stored current)
  pub finished : current.pending_refresh ≡ none
  pub same_agent : current.agent_id ≡ old.0
  pub same_access : current.access_token ≡ next.access_token
  pub new_access : str_eq current.access_token old.1 ≡ false
  pub new_refresh : str_eq current.refresh_token old.2 ≡ false
  pub generation : ℕ
  pub generation_of : current.generation ≡ some generation
  pub advanced : advances old.3 generation ≡ true

abbrev pub RotationOutcome : Option Identity → Rotated → Type 0
RotationOutcome m (ok next, w) = (i : Identity) × (m ≡ some i) × IsRotation (core_of i) next w
RotationOutcome m (err e, w) = core w.identity ≡ core m

abbrev BeginOutcome : Option Identity → Rotated → Type 0
BeginOutcome m (ok b, w) =
    (i : Identity) × (m ≡ some i) × (w.identity ≡ some b) × (core_of b ≡ core_of i)
BeginOutcome m (err e, w) = w.identity ≡ m

begin_identity_outcome :
    (f : Faults) (pending : Option RefreshAttempt) (now : ℕ) (new_id : String) (i : Identity)
    (file : Option Content)
    → BeginOutcome
        (some i)
        (begin_identity f pending (with_pending now new_id i) i (world (some i) file))
unfolding begin_identity install
begin_identity_outcome f (some a) now new_id i file = (i, refl, refl, refl)
begin_identity_outcome f none now new_id i file = go (persist f (with_pending now new_id i) file)
  where
    go :
        (p : Done × Option Content)
        → BeginOutcome (some i) (
            answer
              (with_pending now new_id i)
              (take_over (with_pending now new_id i) (world (some i) file) p))
    go (ok _, file') = (i, refl, refl, refl)
    go (err _, file') = refl

begin_outcome :
    (f : Faults) (now : ℕ) (new_id : String) (m : Option Identity) (file : Option Content)
    → BeginOutcome m (begin_refresh f now new_id (world m file))
unfolding begin_refresh
begin_outcome f now new_id none file = refl
begin_outcome f now new_id (some i) file = elim (Bool-cases (str_eq i.refresh_token "")) [
  | inl e ↦ rw (begin_refresh, e) refl
  | inr e ↦ rw (begin_refresh, e) (begin_identity_outcome f i.pending_refresh now new_id i file)
]

with_credentials-refresh :
    (g : ℕ) (c : Issued) (i : Identity)
    → str_eq c.refresh_token "" ≡ false
    → (with_credentials g c i).refresh_token ≡ c.refresh_token
unfolding with_credentials
with_credentials-refresh g c i h = rw h refl

module _ (s : Services) (a : Attempt) (t : Trust) (b : Identity) (w : World) where
  rotated :
      (next : Identity) (w' : World)
      → w.identity ≡ some b
      → IsRefresh s a.now a.exchange (with_trust t b) next
      → IsCommitted a.now (with_trust t b) next w w'
      → IsRotation (core_of b) next w'
  unfolding with_credentials
  rotated next w' h r c =
      let g = r.genuine in
      let whole = r.result in
      let same : r.trusted ≡ with_trust (trust_of r.trusted) (with_trust t b) =
        trusted_differs_in_pins a.exchange.bundle (with_trust t b) r.trust in
      let access : next.access_token ≡ r.issued.access_token = ap (λ x. x.access_token) whole in
      let token : next.refresh_token ≡ r.issued.refresh_token =
        ap (λ x. x.refresh_token) whole
        ∙ with_credentials-refresh r.proof.generation r.issued r.trusted g.has_refresh in
      record {
        current = committed a.now next c.held;
        memory = c.memory;
        file = c.file;
        finished = refl;
        same_agent = c.successor.keeps_agent;
        same_access = refl;
        new_access =
            ap (λ x. str_eq x b.access_token) access
            ∙ ap (λ x. str_eq r.issued.access_token x.access_token) (sym same)
            ∙ g.new_access;
        new_refresh =
            ap (λ x. str_eq x b.refresh_token) token
            ∙ ap (λ x. str_eq r.issued.refresh_token x.refresh_token) (sym same)
            ∙ g.new_refresh;
        generation = r.proof.generation;
        generation_of = ap (λ x. x.generation) whole;
        advanced = ap (λ x. advances x.generation r.proof.generation) (sym same) ∙ g.advanced;
      }

  concluded :
      (r : Result CredentialError Identity)
      → refresh s a.now a.exchange (with_trust t b) ≡ r
      → w.identity ≡ some b
      → RotationOutcome (some b) (conclude a (with_trust t b) r w)
  unfolding conclude
  concluded (err e) h m = ap core m
  concluded (ok next) h m =
      go (commit_refresh a.commit_faults a.now (with_trust t b) next w)
        (commit_refresh_lem a.commit_faults a.now (with_trust t b) next w)
    where
      go :
          (p : Done × World)
          → CommitOutcome a.now (with_trust t b) next w p
          → RotationOutcome (some b) (answer next p)
      go (ok _, w') c =
          (b, refl, rotated next w' m (refresh-IsRefresh s a.now a.exchange (with_trust t b) h) c)
      go (err _, w') c = ap core (c ∙ m)

-- The identity before a rotation and the one that it began with have the same core.
same_core :
    (m : Option Identity) (b i : Identity) (r : Rotated)
    → m ≡ some i
    → core_of b ≡ core_of i
    → RotationOutcome (some b) r
    → RotationOutcome m r
same_core m b i (ok next, w) h c (j, e, o) =
    let same : core_of j ≡ core_of i = ap (λ x. from_option (core_of i) (core x)) (sym e) ∙ c in
    (i, h, subst (λ k. IsRotation k next w) same o)
same_core m b i (err e, w) h c o = o ∙ ap some c ∙ ap core (sym h)

rotate_with_outcome :
    (s : Services) (a : Attempt) (t : Trust) (w : World)
    → RotationOutcome w.identity (rotate_with s a t w)
unfolding rotate_with
rotate_with_outcome s a t w =
    go (begin_refresh a.begin_faults a.now a.new_id w)
      (begin_outcome a.begin_faults a.now a.new_id w.identity w.file)
  where
    go : (p : Rotated) → BeginOutcome w.identity p → RotationOutcome w.identity (proceed s a t p)
    go (err e, w') o = ap core o
    go (ok b, w') (i, h, held, c) =
        same_core w.identity b i _ h c
          (concluded s a t b w' (refresh s a.now a.exchange (with_trust t b)) refl held)

-- A rotation that succeeds leaves one identity in memory and in the file: that of the same agent, with
-- no request pending, two new tokens and the next generation. One that fails leaves the agent, both
-- tokens and the generation in memory as they were.
pub rotate_outcome :
    (s : Services) (a : Attempt) (c : Client) → RotationOutcome c.world.identity (rotate s a c)
unfolding rotate rotate_as
rotate_outcome s a c = go (current_identity c)
  where
    pick :
        (t : Trust) (has_client : Bool)
        → RotationOutcome c.world.identity
            (if not has_client then (err no_client, c.world) else rotate_with s a t c.world)
    pick t true = rotate_with_outcome s a t c.world
    pick t false = refl

    go : (o : Option Identity) → RotationOutcome c.world.identity (rotate_as s a o c.world)
    go none = refl
    go (some i) = elim (Bool-cases (str_eq (trim_space i.refresh_token) "")) [
      | inl e ↦ rw (rotate_as, e) refl
      | inr e ↦ rw (rotate_as, e) (pick (trust_of i) a.exchange.has_client)
    ]

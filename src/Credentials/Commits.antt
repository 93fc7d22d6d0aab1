-- ===== src/Credentials/Commits.antt =====
-- What `CommitRefresh` does with a result (core/credentials/store.go).
use komari_agent.Shared.{ℕ, ◌≡◌, refl, inl, inr, true, false, Option, none, some, arith, eq_iff}
use komari_agent.Shared.Results.{ok, err, Result-cases}
use komari_agent.Credentials.Model.{RefreshAttempt, Identity}
use komari_agent.Credentials.Store.{
  Content, stored, World, Faults, Done, persist, write_temporary, take_over, install, same_attempt,
  has_conflict, skips, committed, check_generation, check_result, commit_refresh,
}
use komari_agent.Credentials.Agreement.{world}

-- The results that may be committed over an identity: those of its own pending request, for its
-- own token and agent, one generation on.
pub record IsSuccessor (before after i : Identity) : Type 0 where
  pub attempt : RefreshAttempt
  pub request : RefreshAttempt
  pub pending : i.pending_refresh ≡ some attempt
  pub answered : before.pending_refresh ≡ some request
  pub same_request : attempt.request_id ≡ request.request_id
  pub same_token : i.refresh_token ≡ before.refresh_token
  pub same_agent : i.agent_id ≡ before.agent_id
  pub keeps_agent : after.agent_id ≡ before.agent_id
  pub generation : ℕ
  pub generation_of : after.generation ≡ some generation
  pub advanced : skips before.generation generation ≡ false

same_attempt-lem :
    (a b : Option RefreshAttempt)
    → same_attempt a b ≡ true
    → (x : RefreshAttempt) × (y : RefreshAttempt) × (a ≡ some x)
      × (b ≡ some y)
      × (x.request_id ≡ y.request_id)
same_attempt-lem (some x) (some y) h = (x, y, refl, refl, (eq_iff x.request_id y.request_id).0 h)
same_attempt-lem (some x) none h = ground arith
same_attempt-lem none b h = ground arith

check_generation-passed :
    (before after i : Identity) (g : Option ℕ)
    → check_generation before after i g ≡ ok tt
    → (generation : ℕ) × (g ≡ some generation)
      × (has_conflict before after i ≡ false)
      × (skips before.generation generation ≡ false)
unfolding check_generation
check_generation-passed before after i none h = ground arith
check_generation-passed before after i (some n) h = (n, refl, ground arith, ground arith)

no_conflict :
    (before after i : Identity)
    → has_conflict before after i ≡ false
    → (same_attempt i.pending_refresh before.pending_refresh ≡ true)
      × (i.refresh_token ≡ before.refresh_token)
      × (i.agent_id ≡ before.agent_id)
      × (after.agent_id ≡ before.agent_id)
unfolding has_conflict
no_conflict before after i h = (
  ground arith,
  (eq_iff i.refresh_token before.refresh_token).0 (ground arith),
  (eq_iff i.agent_id before.agent_id).0 (ground arith),
  (eq_iff after.agent_id before.agent_id).0 (ground arith),
)

check_result-IsSuccessor :
    (before after i : Identity) → check_result before after i ≡ ok tt → IsSuccessor before after i
check_result-IsSuccessor before after i h =
    let (n, g, free, advanced) = check_generation-passed before after i after.generation h in
    let (attempts, token, agent, keeps) = no_conflict before after i free in
    let (x, y, p, q, same) = same_attempt-lem i.pending_refresh before.pending_refresh attempts in
    record {
      attempt = x;
      request = y;
      pending = p;
      answered = q;
      same_request = same;
      same_token = token;
      same_agent = agent;
      keeps_agent = keeps;
      generation = n;
      generation_of = g;
      advanced = advanced;
    }

-- What a commit that succeeds leaves, in memory and in the file.
pub record IsCommitted (now : ℕ) (before after : Identity) (w w' : World) : Type 0 where
  pub held : Identity
  pub in_memory : w.identity ≡ some held
  pub successor : IsSuccessor before after held
  pub memory : w'.identity ≡ some (committed now after held)
  pub file : w'.file ≡ some (stored (committed now after held))

persist-ok :
    (f : Faults) (i : Identity) (file : Option Content)
    → (persist f i file).0 ≡ ok tt
    → (persist f i file).1 ≡ some (stored i)
unfolding persist
persist-ok f i file h = elim (Result-cases (write_temporary f)) [
  | inl (_, e) ↦ rw (persist, e) refl
  | inr (_, e) ↦ cc (rw (persist, e) at h)
]

abbrev Installed : Identity → World → Done × World → Type 0
Installed next w (ok _, w') = (w'.identity ≡ some next) × (w'.file ≡ some (stored next))
Installed next w (err e, w') = w'.identity ≡ w.identity

installed : (f : Faults) (next : Identity) (w : World) → Installed next w (install f next w)
unfolding install
installed f next w = go (persist f next w.file) (persist-ok f next w.file)
  where
    go :
        (p : Done × Option Content)
        → (p.0 ≡ ok tt → p.1 ≡ some (stored next))
        → Installed next w (take_over next w p)
    go (ok u, file) k = (refl, k refl)
    go (err e, file) k = refl

abbrev pub CommitOutcome : ℕ → Identity → Identity → World → Done × World → Type 0
CommitOutcome now before after w (ok _, w') = IsCommitted now before after w w'
CommitOutcome now before after w (err e, w') = w'.identity ≡ w.identity

commit_outcome :
    (f : Faults) (now : ℕ) (before after : Identity) (m : Option Identity) (file : Option Content)
    → CommitOutcome now before after
        (world m file)
        (commit_refresh f now before after (world m file))
unfolding commit_refresh
commit_outcome f now before after none file = refl
commit_outcome f now before after (some i) file =
    elim (Result-cases (check_result before after i)) [
      | inr (_, e) ↦ rw (commit_refresh, e) refl
      | inl (_, e) ↦
          let w : World = world (some i) file in
          rw (commit_refresh, e)
            (go (check_result-IsSuccessor before after i e) (install f (committed now after i) w)
              (installed f (committed now after i) w))
    ]
  where
    go :
        IsSuccessor before after i
        → (r : Done × World) → Installed (committed now after i) (world (some i) file) r
        → CommitOutcome now before after (world (some i) file) r
    go s (ok u, w') (m, f') = record {
      held = i;
      in_memory = refl;
      successor = s;
      memory = m;
      file = f';
    }
    go s (err e, w') h = h

pub commit_refresh_lem :
    (f : Faults) (now : ℕ) (before after : Identity) (w : World)
    → CommitOutcome now before after w (commit_refresh f now before after w)
commit_refresh_lem f now before after w = commit_outcome f now before after w.identity w.file

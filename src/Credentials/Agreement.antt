-- ===== src/Credentials/Agreement.antt =====
-- What the file of the identity holds, over all calls (core/credentials/store.go).
use komari_agent.Shared.{
  ℕ, ◌≡◌, refl, ◌⊎◌, subst, inl, inr, Bool, Bool-cases, true, false, not, Option, none, some, List,
  [], ◌∷◌, arith, String, str_eq, all, sym,
}
use komari_agent.Shared.Results.{ok, err, Result-cases}
use komari_agent.Credentials.Model.{io_failed, CredentialError, RefreshAttempt, Identity}
use komari_agent.Credentials.Store.{
  answer, take_over, Issue, Trust, Content, stored, malformed, World, Faults, Done, write_temporary,
  persist, install, open_store, save, update_credentials, pin_trust_bundle, clear, begin_identity,
  begin_refresh, commit_refresh, check_result,
}
use komari_agent.Credentials.Calls.{
  Call, enroll, update, pin, log_out, begin, commit, restart, begun, restarted, perform, run,
}

abbrev pub file_of : Option Identity → Option Content
file_of none = none
file_of (some i) = some (stored i)

-- The file holds what memory holds.
abbrev pub Agrees : World → Type 0
Agrees w = w.file ≡ file_of w.identity

-- The directory is flushed by every call.
abbrev pub flushes : List (Faults × Call) → Bool
flushes calls = all (λ (f, _). not f.sync_directory) calls

abbrev pub world : Option Identity → Option Content → World
world identity file = record { identity = identity; file = file }

-- A restart reads the identity that memory held.
pub opened : (f : Faults) (m : Option Identity) → f.read ≡ false → open_store f (file_of m) ≡ ok m
unfolding open_store
opened f none r = ground (arith, r)
opened f (some i) r = ground (arith, r)

pub unopened :
    (f : Faults) (file : Option Content) → f.read ≡ true → open_store f file ≡ err io_failed
unfolding open_store
unopened f none r = ground (arith, r)
unopened f (some malformed) r = ground (arith, r)
unopened f (some (stored i)) r = ground (arith, r)

pub restarted-lem :
    (f : Faults) (m : Option Identity) (file : Option Content)
    → f.read ≡ false
    → Agrees (world m file)
    → restarted f (world m file) ≡ (ok tt, world m file)
unfolding restarted
restarted-lem f m file r a =
    subst (λ x. restarted f (world m x) ≡ (ok tt, world m x)) (sym a)
      (rw (restarted, opened f m r) refl)

reopened-Agrees : (f : Faults) (m : Option Identity) → Agrees (restarted f (world m (file_of m))).1
unfolding restarted open_store
reopened-Agrees f none = elim (Bool-cases f.read) [
  | inl r ↦ rw (restarted, open_store, r) refl
  | inr r ↦ rw (restarted, open_store, r) refl
]
reopened-Agrees f (some i) = elim (Bool-cases f.read) [
  | inl r ↦ rw (restarted, open_store, r) refl
  | inr r ↦ rw (restarted, open_store, r) refl
]

restarted-Agrees : (f : Faults) (w : World) → Agrees w → Agrees (restarted f w).1
restarted-Agrees f w a =
    subst (λ x. Agrees (restarted f (world w.identity x)).1) (sym a) (reopened-Agrees f w.identity)

module _ (f : Faults) (s : f.sync_directory ≡ false) where
  persist-cases :
      (i : Identity) (file : Option Content)
      → (persist f i file ≡ (ok tt, some (stored i)))
        ⊎ ((e : CredentialError) × (persist f i file ≡ (err e, file)))
  unfolding persist
  persist-cases i file = elim (Result-cases (write_temporary f)) [
    | inl (_, e) ↦ inl (rw (persist, e, s) refl)
    | inr (x, e) ↦ inr (x, rw (persist, e) refl)
  ]

  install-Agrees : (i : Identity) (w : World) → Agrees w → Agrees (install f i w).1
  unfolding install
  install-Agrees i w a = elim (persist-cases i w.file) [
    | inl e ↦ subst (λ p. Agrees (take_over i w p).1) (sym e) refl
    | inr (_, e) ↦ subst (λ p. Agrees (take_over i w p).1) (sym e) a
  ]

  begin_identity-Agrees :
      (pending : Option RefreshAttempt) (next i : Identity) (w : World)
      → Agrees w
      → Agrees (begin_identity f pending next i w).1
  unfolding begin_identity
  begin_identity-Agrees (some _) next i w a = a
  begin_identity-Agrees none next i w a = go (install f next w) (install-Agrees next w a)
    where
      go : (r : Done × World) → Agrees r.1 → Agrees (answer next r).1
      go (ok _, w') a = a
      go (err _, w') a = a

  pub begin_refresh-Agrees :
      (now : ℕ) (new_id : String) (m : Option Identity) (file : Option Content)
      → Agrees (world m file)
      → Agrees (begin_refresh f now new_id (world m file)).1
  unfolding begin_refresh
  begin_refresh-Agrees now new_id none file a = a
  begin_refresh-Agrees now new_id (some i) file a = elim (Bool-cases (str_eq i.refresh_token "")) [
    | inl b ↦ rw (begin_refresh, b) a
    | inr b ↦ rw (begin_refresh, b) (begin_identity-Agrees i.pending_refresh _ i _ a)
  ]

  begun-Agrees :
      (now : ℕ) (new_id : String) (w : World) → Agrees w → Agrees (begun f now new_id w).1
  unfolding begun
  begun-Agrees now new_id w a = elim (Result-cases (begin_refresh f now new_id w).0) [
    | inl (_, e) ↦ rw (begun, e) (begin_refresh-Agrees now new_id w.identity w.file a)
    | inr (_, e) ↦ rw (begun, e) (begin_refresh-Agrees now new_id w.identity w.file a)
  ]

  commit_refresh-Agrees :
      (now : ℕ) (before after : Identity) (m : Option Identity) (file : Option Content)
      → Agrees (world m file)
      → Agrees (commit_refresh f now before after (world m file)).1
  unfolding commit_refresh
  commit_refresh-Agrees now before after none file a = a
  commit_refresh-Agrees now before after (some i) file a =
      elim (Result-cases (check_result before after i)) [
        | inl (_, c) ↦ rw (commit_refresh, c) (install-Agrees _ _ a)
        | inr (_, c) ↦ rw (commit_refresh, c) a
      ]

  update-Agrees :
      (now : ℕ) (c : Issue) (m : Option Identity) (file : Option Content)
      → Agrees (world m file)
      → Agrees (update_credentials f now c (world m file)).1
  unfolding update_credentials
  update-Agrees now c none file a = a
  update-Agrees now c (some i) file a = install-Agrees _ _ a

  pin-Agrees :
      (now : ℕ) (t : Trust) (m : Option Identity) (file : Option Content)
      → Agrees (world m file)
      → Agrees (pin_trust_bundle f now t (world m file)).1
  unfolding pin_trust_bundle
  pin-Agrees now t none file a = a
  pin-Agrees now t (some i) file a = install-Agrees _ _ a

  clear-Agrees : (w : World) → Agrees w → Agrees (clear f w).1
  unfolding clear
  clear-Agrees w a = elim (Bool-cases f.remove) [
    | inl e ↦ rw (clear, e) a
    | inr e ↦ rw (clear, e) refl
  ]

  pub perform-Agrees : (c : Call) (w : World) → Agrees w → Agrees (perform f c w).1
  unfolding perform save
  perform-Agrees (enroll now i) w a = install-Agrees _ w a
  perform-Agrees (update now c) w a = update-Agrees now c w.identity w.file a
  perform-Agrees (pin now t) w a = pin-Agrees now t w.identity w.file a
  perform-Agrees log_out w a = clear-Agrees w a
  perform-Agrees (begin now new_id) w a = begun-Agrees now new_id w a
  perform-Agrees (commit now before after) w a =
      commit_refresh-Agrees now before after w.identity w.file a
  perform-Agrees restart w a = restarted-Agrees f w a

pub run-Agrees :
    (calls : List (Faults × Call)) (w : World)
    → flushes calls ≡ true
    → Agrees w
    → Agrees (run calls w)
unfolding run
run-Agrees [] w s a = a
run-Agrees ((f, c) ∷ calls) w s a =
    run-Agrees calls (perform f c w).1 (ground arith) (perform-Agrees f (ground arith) c w a)

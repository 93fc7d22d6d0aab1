-- ===== src/Credentials/Pending.antt =====
-- The request ID of a rotation over failures and restarts (core/credentials/store.go).
use komari_agent.Shared.{
  ℕ, ◌≡◌, refl, inl, inr, Bool, Bool-cases, true, false, not, ◌&&◌, Option, none, some, List, [],
  ◌∷◌, arith, String, str_eq, ap, ◌∙◌,
}
use komari_agent.Shared.Results.{ok, err, Result-cases}
use komari_agent.Credentials.Model.{CredentialError, RefreshAttempt, Identity}
use komari_agent.Credentials.Store.{
  save, clear, check_result, commit_refresh, Content, World, Faults, Done, Issue, Trust, persist,
  take_over, install, begin_identity, begin_refresh, update_credentials, pin_trust_bundle,
}
use komari_agent.Credentials.Calls.{
  Call, enroll, update, pin, log_out, begin, commit, restart, begun, restarted, perform, run,
}
use komari_agent.Credentials.Agreement.{unopened, Agrees, flushes, perform-Agrees, restarted-lem}

abbrev pub pending_of : Option Identity → Option RefreshAttempt
pending_of none = none
pending_of (some i) = i.pending_refresh

-- An operation that replaces the identity, and succeeds.
abbrev pub replaces : Call → Done → Bool
replaces (enroll now i) (ok _) = true
replaces log_out (ok _) = true
replaces (commit now before after) (ok _) = true
replaces _ _ = false

-- No call of the list replaces the identity.
abbrev pub undisturbed : List (Faults × Call) → World → Bool
undisturbed [] w = true
undisturbed ((f, c) ∷ calls) w =
    let (r, w') = perform f c w in not (replaces c r) && undisturbed calls w'

-- What memory and file hold for a rotation that has begun.
abbrev pub IsPending : RefreshAttempt → World → Type 0
IsPending a w = (pending_of w.identity ≡ some a) × Agrees w

install_keeps :
    (f : Faults) (next : Identity) (w : World) (a : RefreshAttempt)
    → next.pending_refresh ≡ some a
    → pending_of w.identity ≡ some a
    → pending_of (install f next w).1.identity ≡ some a
unfolding install
install_keeps f next w a n h = go (persist f next w.file)
  where
    go : (p : Done × Option Content) → pending_of (take_over next w p).1.identity ≡ some a
    go (ok _, file) = n
    go (err _, file) = h

refused :
    (f : Faults) (next : Identity) (w : World) {e : CredentialError}
    → (install f next w).0 ≡ err e
    → (install f next w).1.identity ≡ w.identity
unfolding install
refused f next w h = go (persist f next w.file) h
  where
    go :
        (p : Done × Option Content) {e : CredentialError}
        → (take_over next w p).0 ≡ err e
        → (take_over next w p).1.identity ≡ w.identity
    go (ok _, file) h = ground (arith, h)
    go (err _, file) h = refl

module _ (f : Faults) (a : RefreshAttempt) where
  replaced_or_kept :
      (next : Identity) (w : World) (c : Call)
      → ((r : Done) → replaces c r ≡ false → (e : CredentialError) × (r ≡ err e))
      → replaces c (install f next w).0 ≡ false
      → pending_of w.identity ≡ some a
      → pending_of (install f next w).1.identity ≡ some a
  replaced_or_kept next w c only h p =
      let (e, r) = only (install f next w).0 h in ap pending_of (refused f next w r) ∙ p

  begin_identity_keeps :
      (pending : Option RefreshAttempt) (next i : Identity) (w : World)
      → pending ≡ some a
      → begin_identity f pending next i w ≡ (ok i, w)
  unfolding begin_identity
  begin_identity_keeps (some _) next i w h = refl
  begin_identity_keeps none next i w h = ground (arith, h)

  pub begin_refresh_keeps :
      (now : ℕ) (new_id : String) (m : Option Identity) (file : Option Content)
      → pending_of m ≡ some a
      → (begin_refresh f now new_id (record { identity = m; file = file })).1
        ≡ record { identity = m; file = file }
  unfolding begin_refresh
  begin_refresh_keeps now new_id none file h = refl
  begin_refresh_keeps now new_id (some i) file h = elim (Bool-cases (str_eq i.refresh_token "")) [
    | inl b ↦ rw (begin_refresh, b) refl
    | inr b ↦ rw (begin_refresh, b, begin_identity_keeps i.pending_refresh _ i _ h) refl
  ]

  begun_keeps :
      (now : ℕ) (new_id : String) (w : World)
      → pending_of w.identity ≡ some a
      → (begun f now new_id w).1 ≡ w
  unfolding begun
  begun_keeps now new_id w h = elim (Result-cases (begin_refresh f now new_id w).0) [
    | inl (_, e) ↦ rw (begun, e) (begin_refresh_keeps now new_id w.identity w.file h)
    | inr (_, e) ↦ rw (begun, e) (begin_refresh_keeps now new_id w.identity w.file h)
  ]

  restarted_keeps : (w : World) → Agrees w → (restarted f w).1 ≡ w
  unfolding restarted
  restarted_keeps w g = elim (Bool-cases f.read) [
    | inl r ↦ rw (restarted, unopened f w.file r) refl
    | inr r ↦ ap (λ p. p.1) (restarted-lem f w.identity w.file r g)
  ]

  update_keeps :
      (now : ℕ) (c : Issue) (m : Option Identity) (file : Option Content)
      → pending_of m ≡ some a
      → pending_of (update_credentials f now c (record { identity = m; file = file })).1.identity
        ≡ some a
  unfolding update_credentials
  update_keeps now c none file h = h
  update_keeps now c (some i) file h = install_keeps f _ _ a h h

  pin_keeps :
      (now : ℕ) (t : Trust) (m : Option Identity) (file : Option Content)
      → pending_of m ≡ some a
      → pending_of (pin_trust_bundle f now t (record { identity = m; file = file })).1.identity
        ≡ some a
  unfolding pin_trust_bundle
  pin_keeps now t none file h = h
  pin_keeps now t (some i) file h = install_keeps f _ _ a h h

  enroll_keeps :
      (now : ℕ) (i : Identity) (w : World)
      → replaces (enroll now i) (save f now i w).0 ≡ false
      → pending_of w.identity ≡ some a
      → pending_of (save f now i w).1.identity ≡ some a
  unfolding save
  enroll_keeps now i w h p = replaced_or_kept _ w (enroll now i) only h p
    where
      only : (r : Done) → replaces (enroll now i) r ≡ false → (e : CredentialError) × (r ≡ err e)
      only (ok _) h = ground (arith, h)
      only (err e) h = (e, refl)

  clear_keeps :
      (w : World)
      → replaces log_out (clear f w).0 ≡ false
      → pending_of w.identity ≡ some a
      → pending_of (clear f w).1.identity ≡ some a
  unfolding clear
  clear_keeps w h p = elim (Bool-cases f.remove) [
    | inl e ↦ rw (clear, e) p
    | inr e ↦ cc (rw (clear, e) at h)
  ]

  commit_keeps :
      (now : ℕ) (before after : Identity) (m : Option Identity) (file : Option Content)
      → (let w : World = record { identity = m; file = file } in
          replaces (commit now before after) (commit_refresh f now before after w).0 ≡ false
          → pending_of m ≡ some a
          → pending_of (commit_refresh f now before after w).1.identity ≡ some a)
  unfolding commit_refresh
  commit_keeps now before after none file h p = p
  commit_keeps now before after (some i) file h p =
      elim (Result-cases (check_result before after i)) [
        | inl (_, e) ↦
            rw (commit_refresh, e)
              (replaced_or_kept _ _ (commit now before after) only (rw (commit_refresh, e) at h) p)
        | inr (_, e) ↦ rw (commit_refresh, e) p
      ]
    where
      only :
          (r : Done)
          → replaces (commit now before after) r ≡ false
          → (e : CredentialError) × (r ≡ err e)
      only (ok _) h = ground (arith, h)
      only (err e) h = (e, refl)

  perform_keeps :
      (c : Call) (w : World)
      → replaces c (perform f c w).0 ≡ false
      → IsPending a w
      → pending_of (perform f c w).1.identity ≡ some a
  unfolding perform
  perform_keeps (enroll now i) w h (p, g) = enroll_keeps now i w h p
  perform_keeps (update now c) w h (p, g) = update_keeps now c w.identity w.file p
  perform_keeps (pin now t) w h (p, g) = pin_keeps now t w.identity w.file p
  perform_keeps log_out w h (p, g) = clear_keeps w h p
  perform_keeps (begin now new_id) w h (p, g) =
      ap (λ x. pending_of x.identity) (begun_keeps now new_id w p) ∙ p
  perform_keeps (commit now before after) w h (p, g) =
      commit_keeps now before after w.identity w.file h p
  perform_keeps restart w h (p, g) = ap (λ x. pending_of x.identity) (restarted_keeps w g) ∙ p

pub run-IsPending :
    (calls : List (Faults × Call)) (w : World) (a : RefreshAttempt)
    → flushes calls ≡ true
    → undisturbed calls w ≡ true
    → IsPending a w
    → IsPending a (run calls w)
unfolding run
run-IsPending [] w a s u p = p
run-IsPending ((f, c) ∷ calls) w a s u p =
    run-IsPending calls (perform f c w).1 a (ground arith) (ground arith)
      (perform_keeps f a c w (ground arith) p, perform-Agrees f (ground arith) c w p.1)

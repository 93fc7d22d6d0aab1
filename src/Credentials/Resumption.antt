-- ===== src/Credentials/Resumption.antt =====
-- A rotation that is begun again, with its request ID (core/credentials/store.go).
use komari_agent.Shared.{
  ℕ, ◌≡◌, refl, inl, inr, Bool-cases, true, false, Option, none, some, List, arith, String, str_eq,
  sym, subst, ap, ◌∙◌,
}
use komari_agent.Shared.Results.{ok, err, ok-injective}
use komari_agent.Credentials.Model.{RefreshAttempt, Identity}
use komari_agent.Credentials.Store.{
  Content, stored, World, Faults, Done, persist, answer, take_over, install, begin_identity,
  begin_refresh, with_pending,
}
use komari_agent.Credentials.Calls.{Call, run}
use komari_agent.Credentials.Agreement.{begin_refresh-Agrees, Agrees, flushes, file_of}
use komari_agent.Credentials.Pending.{pending_of, undisturbed, begin_refresh_keeps, run-IsPending}

-- The identity that a call returned is in memory.
answered_in_memory :
    (next : Identity) (w : World) (p : Done × Option Content) {b : Identity} {w' : World}
    → answer next (take_over next w p) ≡ (ok b, w')
    → (next ≡ b) × (w'.identity ≡ some b)
answered_in_memory next w (ok _, file) h =
    let same = ok-injective (ap (λ r. r.0) h) in
    (same, ap (λ r. r.1.identity) (sym h) ∙ ap some same)
answered_in_memory next w (err e, file) h = ground (arith, ap (λ r. r.0) h)

begin_identity-pending :
    (f : Faults) (pending : Option RefreshAttempt) (now : ℕ) (new_id : String) (i : Identity)
    (file : Option Content) {b : Identity} {w' : World}
    → i.pending_refresh ≡ pending
    → begin_identity f pending
        (with_pending now new_id i)
        i
        (record { identity = some i; file = file })
      ≡ (ok b, w')
    → ((a : RefreshAttempt) × (b.pending_refresh ≡ some a)) × (w'.identity ≡ some b)
unfolding begin_identity install
begin_identity-pending f (some a) now new_id i file p h =
    let same = ok-injective (ap (λ r. r.0) h) in
    ((a, ap (λ x. x.pending_refresh) (sym same) ∙ p), ap (λ r. r.1.identity) (sym h) ∙ ap some same)
begin_identity-pending f none now new_id i file p h =
    let (same, held) =
      answered_in_memory (with_pending now new_id i) (record { identity = some i; file = file })
        (persist f (with_pending now new_id i) file) h in
    ((_, ap (λ x. x.pending_refresh) (sym same)), held)

begin_refresh-pending :
    (f : Faults) (now : ℕ) (new_id : String) (m : Option Identity) (file : Option Content)
    {b : Identity} {w' : World}
    → begin_refresh f now new_id (record { identity = m; file = file }) ≡ (ok b, w')
    → ((a : RefreshAttempt) × (b.pending_refresh ≡ some a)) × (w'.identity ≡ some b)
unfolding begin_refresh
begin_refresh-pending f now new_id none file h = ground (arith, ap (λ r. r.0) h)
begin_refresh-pending f now new_id (some i) file h = elim (Bool-cases (str_eq i.refresh_token "")) [
  | inl e ↦ cc (rw (begin_refresh, e) at h)
  | inr e ↦
      begin_identity-pending f i.pending_refresh now new_id i file refl (rw (begin_refresh, e) at h)
]

durable :
    (a : RefreshAttempt) (m : Option Identity) (file : Option Content)
    → pending_of m ≡ some a
    → file ≡ file_of m
    → (i : Identity) × (file ≡ some (stored i)) × (i.pending_refresh ≡ some a)
durable a none file p g = ground (arith, p)
durable a (some i) file p g = (i, g, p)

-- A rotation that has begun keeps its request over failures and restarts: memory and file agree
-- before it, every directory flush succeeds, and no enrollment, logout or commit succeeds after it.
-- Then the file holds the identity that the first call returned, as far as its pending request goes,
-- and a later call that succeeds returns the same request.
pub begin_again :
    (f g : Faults) (now later : ℕ) (new_id other_id : String) (calls : List (Faults × Call))
    (w : World) {b c : Identity} {w1 w2 : World}
    → Agrees w
    → f.sync_directory ≡ false
    → begin_refresh f now new_id w ≡ (ok b, w1)
    → flushes calls ≡ true
    → undisturbed calls w1 ≡ true
    → begin_refresh g later other_id (run calls w1) ≡ (ok c, w2)
    → ((i : Identity) × ((run calls w1).file ≡ some (stored i))
        × (i.pending_refresh ≡ b.pending_refresh))
      × (c.pending_refresh ≡ b.pending_refresh)
begin_again f g now later new_id other_id calls w {b} {c} {w1} {w2} agrees s h fl u k =
    let ((a, pending), held) = begin_refresh-pending f now new_id w.identity w.file h in
    let agrees1 : Agrees w1 =
      subst Agrees (ap (λ r. r.1) h)
        (begin_refresh-Agrees f s now new_id w.identity w.file agrees) in
    let (kept, agrees2) = run-IsPending calls w1 a fl u (ap pending_of held ∙ pending, agrees1) in
    let (_, held2) =
      begin_refresh-pending g later other_id (run calls w1).identity (run calls w1).file k in
    let same : w2 ≡ run calls w1 =
      sym (ap (λ r. r.1) k)
      ∙ begin_refresh_keeps g a later other_id (run calls w1).identity (run calls w1).file kept in
    let (i, file, p) = durable a (run calls w1).identity (run calls w1).file kept agrees2 in
    (
      (i, file, p ∙ sym pending),
      ap pending_of (sym held2) ∙ ap (λ x. pending_of x.identity) same ∙ kept ∙ sym pending,
    )

-- ===== src/Signing/Replays.antt =====
-- A nonce is refused after it was accepted, also after a restart: until its expiry, and not after it
-- (core/signing/replay.go).
use komari_agent.Shared.{
  subst, ◌⊎◌, ℕ, ◌+◌, ◌≤◌, ◌<◌, ◌≡◌, refl, sym, ap, inr, true, false, none, some, List, [], ◌∷◌,
  String, arith, str_eq, ◌==◌, length,
}
use komari_agent.Shared.Results.{Result, ok, err}
use komari_agent.Shared.Texts.{trim_space}
use komari_agent.Shared.Maps.{lookup, insert, lookup-insert_self}
use komari_agent.Signing.Replay.{
  ReplayError, unavailable, already_used, ReplayGuard, GuardFaults, object, new_replay_guard, load,
  prune, persist, record_nonce, consume_loaded, consume, seen,
}
use komari_agent.Signing.Entries.{
  length-insert, length-drop_expired, lookup-drop_expired-insert, prune_small,
}
use komari_agent.Signing.Nonces.{Remembers}
use komari_agent.Signing.Retention.{
  Retains, Retains-le, load_loaded, consume-Retains, seen-Retains, restart-Retains,
  consume-retained,
}

-- One call of `Consume`, with its clock and faults.
pub record Attempt : Type 0 where
  pub faults : GuardFaults
  pub now : ℕ
  pub nonce : String
  pub expires_at : ℕ

-- What can happen to a record: a call of `Consume` or of `Seen`, or a restart of the process, which
-- makes a new guard over the same file.
pub data Event : Type 0 where
  call : Attempt → Event
  ask : GuardFaults → ℕ → String → Event
  restart : Event

abbrev pub after_event : Event → ReplayGuard → ReplayGuard
after_event (call a) g = (consume a.faults a.now a.nonce a.expires_at g).1
after_event (ask f now nonce) g = (seen f now nonce g).1
after_event restart g = new_replay_guard g.file

pub after_all : List Event → ReplayGuard → ReplayGuard
after_all [] g = g
after_all (x ∷ rest) g = after_all rest (after_event x g)

-- The calls are made no later than `e`.
abbrev pub IsBy : ℕ → Event → Type 0
IsBy e (call a) = a.now ≤ e
IsBy e (ask f now nonce) = now ≤ e
IsBy e restart = Unit {0}

abbrev pub AllBy : ℕ → List Event → Type 0
AllBy e [] = Unit {0}
AllBy e (x ∷ rest) = IsBy e x × AllBy e rest

after_event-Retains :
    {nonce : String} {e bound : ℕ} (x : Event) {g : ReplayGuard}
    → bound ≤ 4096
    → IsBy e x
    → Retains nonce e bound g
    → Retains nonce e (bound + 1) (after_event x g)
after_event-Retains (call a) small le h =
    consume-Retains a.faults a.now a.nonce a.expires_at small le h
after_event-Retains (ask f now nonce) small le h = seen-Retains f now nonce small le h
after_event-Retains restart small _ h = restart-Retains h

after_all-Retains :
    {nonce : String} {e : ℕ} (bound : ℕ) (events : List Event) {g : ReplayGuard}
    → bound + length events ≤ 4096
    → AllBy e events
    → Retains nonce e bound g
    → Retains nonce e (bound + length events) (after_all events g)
unfolding after_all
after_all-Retains {nonce} {e} bound [] {g} small times h =
    subst (λ n. Retains nonce e n g) (omega arith) h
after_all-Retains {nonce} {e} bound (x ∷ rest) {g} small times h =
    subst (λ n. Retains nonce e n (after_all (x ∷ rest) g)) (omega arith)
      (after_all-Retains (bound + 1) rest (omega arith) times.1
        (after_event-Retains x (omega arith) times.0 h))

persisted :
    (f : GuardFaults) (nonce : String) (e : ℕ) (g : ReplayGuard)
    → (record_nonce f nonce e g).0 ≡ ok tt
    → (persist f ≡ ok tt)
      × ((record_nonce f nonce e g).1 ≡ record g {
        entries = insert nonce e g.entries;
        file = some (object (insert nonce e g.entries));
      })
unfolding record_nonce
persisted f nonce e g h = elim_persist (persist f) refl
  where
    elim_persist :
        (r : Result ReplayError (Unit {0}))
        → persist f ≡ r
        → (persist f ≡ ok tt)
          × ((record_nonce f nonce e g).1 ≡ record g {
            entries = insert nonce e g.entries;
            file = some (object (insert nonce e g.entries));
          })
    elim_persist (ok _) p = (p, rw (p, record_nonce))
    elim_persist (err x) p = cc (rw (p, record_nonce) at h)

recorded :
    (f : GuardFaults) (nonce : String) (e : ℕ) (g : ReplayGuard)
    → persist f ≡ ok tt
    → (record_nonce f nonce e g).0 ≡ ok tt
unfolding record_nonce
recorded f nonce e g h = rw (h, record_nonce)

load-is_loaded :
    (f : GuardFaults) (g : ReplayGuard) → (load f g).1 ≡ true → (load f g).0.loaded ≡ true
unfolding load
load-is_loaded f g h = ground arith

-- What a successful `Consume` has done, on the record `l` that it loaded.
abbrev Recorded : GuardFaults → ℕ → String → ℕ → ReplayGuard → ReplayGuard → Type 0
Recorded f now nonce e g l =
    (str_eq (trim_space nonce) "" ≡ false)
    × ((load f g).1 ≡ true)
    × (lookup (trim_space nonce) (prune now l.entries) ≡ none)
    × ((e == 0) ≡ false)
    × ((consume f now nonce e g).1 ≡ record l {
      entries = insert (trim_space nonce) e (prune now l.entries);
      file = some (object (insert (trim_space nonce) e (prune now l.entries)));
    })

consume-eq_ok :
    (f : GuardFaults) (now : ℕ) (nonce : String) (e : ℕ) (g : ReplayGuard)
    → (consume f now nonce e g).0 ≡ ok tt
    → Recorded f now nonce e g (load f g).0
unfolding consume consume_loaded
consume-eq_ok f now nonce e g h =
    let l = (load f g).0 in
    ground (arith, persisted f (trim_space nonce) e (record l { entries = prune now l.entries }))

consume-eq_ok-Remembers :
    (f : GuardFaults) (now : ℕ) (nonce : String) (e : ℕ) (g : ReplayGuard)
    → length (load f g).0.entries ≤ 4096
    → (consume f now nonce e g).0 ≡ ok tt
    → Remembers (trim_space nonce) e (length (load f g).0.entries + 1) (consume f now nonce e g).1
consume-eq_ok-Remembers f now nonce e g small h =
    let done = consume-eq_ok f now nonce e g h in
    let l = (load f g).0 in
    let kept = prune now l.entries in
    rw done.4 (record {
      is_loaded = load-is_loaded f g done.1;
      entered = lookup-insert_self (trim_space nonce) e kept;
      bounded = omega (
        arith,
        length-insert (trim_space nonce) e kept,
        length-drop_expired now l.entries,
        ap (length {A = String × ℕ}) (prune_small now l.entries small),
      );
    })

consume-eq_ok-Retains :
    (f : GuardFaults) (now : ℕ) (nonce : String) (e : ℕ) (g : ReplayGuard)
    → length (load f g).0.entries ≤ 4096
    → (consume f now nonce e g).0 ≡ ok tt
    → Retains (trim_space nonce) e (length (load f g).0.entries + 1) (consume f now nonce e g).1
consume-eq_ok-Retains f now nonce e g small h =
    let after = (consume-eq_ok f now nonce e g h).4 in
    let m = consume-eq_ok-Remembers f now nonce e g small h in
    record {
      stores = record {
        content = (consume f now nonce e g).1.entries;
        written = rw after refl;
        entered = m.entered;
        bounded = m.bounded;
      };
      remembers = inr m;
    }

-- Once a nonce was accepted, no call that carries it (surrounded by any spaces) is accepted until its
-- expiry: it is refused as used, or as unavailable where the file has to be read and cannot be. This
-- holds whatever restarts, and calls made no later than the expiry, come between and whichever of
-- their reads and writes fail, as long as the record that the accepted call loads, with one entry for
-- that call and for each event between, is within 4096 entries.
pub nonce_used_once :
    (f : GuardFaults) (now : ℕ) (nonce : String) (e : ℕ) (g : ReplayGuard) (between : List Event)
    (again : Attempt)
    → length (load f g).0.entries + 1 + length between ≤ 4096
    → (consume f now nonce e g).0 ≡ ok tt
    → AllBy e between
    → again.now ≤ e
    → trim_space again.nonce ≡ trim_space nonce
    → let late =
        consume again.faults again.now again.nonce again.expires_at
          (after_all between (consume f now nonce e g).1) in
      (late.0 ≡ err already_used) ⊎ ((again.faults.read ≡ true) × (late.0 ≡ err unavailable))
nonce_used_once f now nonce e g between again small h times le same =
    let bound = length (load f g).0.entries + 1 in
    let kept =
      after_all-Retains bound between small times
        (consume-eq_ok-Retains f now nonce e g (omega arith) h) in
    consume-retained again.faults again.now again.nonce again.expires_at
      (subst (λ n. Retains n e 4096 (after_all between (consume f now nonce e g).1)) (sym same)
        (Retains-le small kept))
      (rw same (consume-eq_ok f now nonce e g h).0) le

consume_fresh :
    (f : GuardFaults) (now : ℕ) (nonce : String) (e : ℕ) (g : ReplayGuard)
    → g.loaded ≡ true
    → str_eq (trim_space nonce) "" ≡ false
    → lookup (trim_space nonce) (prune now g.entries) ≡ none
    → (e == 0) ≡ false
    → persist f ≡ ok tt
    → (consume f now nonce e g).0 ≡ ok tt
unfolding consume consume_loaded
consume_fresh f now nonce e g loaded filled fresh timed written = ground (
  arith,
  load_loaded f g loaded,
  recorded f (trim_space nonce) e (record g { entries = prune now g.entries }),
)

-- After its expiry the nonce of an accepted call is forgotten, and it is accepted once more.
pub nonce_accepted_after_expiry :
    (f f' : GuardFaults) (now later : ℕ) (nonce : String) (e : ℕ) (g : ReplayGuard)
    → length (load f g).0.entries + 1 ≤ 4096
    → persist f' ≡ ok tt
    → (consume f now nonce e g).0 ≡ ok tt
    → e < later
    → (consume f' later nonce e (consume f now nonce e g).1).0 ≡ ok tt
nonce_accepted_after_expiry f f' now later nonce e g small written h lt =
    let done = consume-eq_ok f now nonce e g h in
    let kept = consume-eq_ok-Remembers f now nonce e g (omega arith) h in
    let l = (load f g).0 in
    let m = insert (trim_space nonce) e (prune now l.entries) in
    let forgotten : lookup (trim_space nonce) (prune later m) ≡ none =
      rw (prune_small later m (omega (arith, rw done.4 at kept.bounded)))
        (lookup-drop_expired-insert later (trim_space nonce) e (prune now l.entries) done.2 lt) in
    rw done.4 (
      consume_fresh f' later nonce e (record l { entries = m; file = some (object m) })
        (load-is_loaded f g done.1) done.0 forgotten done.3 written)

-- ===== src/Signing/Nonces.antt =====
-- How long the record of nonces (core/signing/replay.go) remembers an entry while other nonces are
-- consumed.
use komari_agent.Shared.{
  ℕ, ◌+◌, ◌≤◌, ◌≡◌, refl, ◌∙◌, inl, inr, true, none, some, String, arith, eq_iff, ◌==◌, Bool-cases,
  Option-cases, length,
}
use komari_agent.Shared.Results.{err}
use komari_agent.Shared.Maps.{lookup, insert, lookup-insert, lookup-erase}
use komari_agent.Signing.Replay.{
  already_used, ReplayGuard, GuardFaults, drop_expired, prune, record_nonce, consume_loaded,
}
use komari_agent.Signing.Entries.{
  length-insert, length-erase, lookup-drop_expired, length-drop_expired, prune_small,
}

-- The loaded record remembers the nonce until `e`, and holds at most `bound` entries.
pub record Remembers (nonce : String) (e bound : ℕ) (g : ReplayGuard) : Type 0 where
  pub is_loaded : g.loaded ≡ true
  pub entered : lookup nonce g.entries ≡ some e
  pub bounded : length g.entries ≤ bound

pub consume_loaded_used :
    (f : GuardFaults) (now : ℕ) (nonce : String) (expires_at : ℕ) {e : ℕ} (g : ReplayGuard)
    → lookup nonce g.entries ≡ some e
    → now ≤ e
    → length g.entries ≤ 4096
    → (consume_loaded f now nonce expires_at g).0 ≡ err already_used
unfolding consume_loaded
consume_loaded_used f now nonce expires_at g h le small =
    rw (prune_small now g.entries small, consume_loaded)
      (rw (lookup-drop_expired now nonce g.entries h le, consume_loaded) refl)

record_nonce-lookup :
    (f : GuardFaults) (other : String) (expires_at : ℕ) (nonce : String) {e : ℕ} (g : ReplayGuard)
    → lookup other g.entries ≡ none
    → lookup nonce g.entries ≡ some e
    → lookup nonce (record_nonce f other expires_at g).1.entries ≡ some e
unfolding record_nonce
record_nonce-lookup f other expires_at nonce g fresh h = ground (
  arith,
  eq_iff other nonce,
  lookup-insert other nonce expires_at g.entries,
  lookup-erase other nonce (insert other expires_at g.entries),
)

length-record_nonce :
    (f : GuardFaults) (other : String) (expires_at : ℕ) (g : ReplayGuard)
    → (length (record_nonce f other expires_at g).1.entries ≤ length g.entries + 1)
      × ((record_nonce f other expires_at g).1.loaded ≡ g.loaded)
unfolding record_nonce
length-record_nonce f other expires_at g = ground (
  arith,
  length-insert other expires_at g.entries,
  length-erase other (insert other expires_at g.entries),
)

abbrev pub pruned : ℕ → ReplayGuard → ReplayGuard
pruned now g = record g { entries = prune now g.entries }

pub pruned-Remembers :
    (now : ℕ) {nonce : String} {e bound : ℕ} {g : ReplayGuard}
    → bound ≤ 4096
    → now ≤ e
    → Remembers nonce e bound g
    → Remembers nonce e bound (pruned now g)
pruned-Remembers now {nonce} {e} {bound} {g} small le h =
    let same : prune now g.entries ≡ drop_expired now g.entries =
      prune_small now g.entries (omega (arith, h.bounded)) in
    record {
      is_loaded = h.is_loaded;
      entered = rw same (lookup-drop_expired now nonce g.entries h.entered le);
      bounded = rw same (omega (arith, length-drop_expired now g.entries, h.bounded));
    }

record_nonce-Remembers :
    (f : GuardFaults) (other : String) (expires_at : ℕ) {nonce : String} {e bound : ℕ}
    {g : ReplayGuard}
    → lookup other g.entries ≡ none
    → Remembers nonce e bound g
    → Remembers nonce e (bound + 1) (record_nonce f other expires_at g).1
record_nonce-Remembers f other expires_at {nonce} {g} fresh h =
    let sizes = length-record_nonce f other expires_at g in
    record {
      is_loaded = sizes.1 ∙ h.is_loaded;
      entered = record_nonce-lookup f other expires_at nonce g fresh h.entered;
      bounded = omega (arith, sizes.0, h.bounded);
    }

pub Remembers-weaken :
    {nonce : String} {e bound : ℕ} {g : ReplayGuard}
    → Remembers nonce e bound g
    → Remembers nonce e (bound + 1) g
Remembers-weaken h = record {
  is_loaded = h.is_loaded;
  entered = h.entered;
  bounded = omega (arith, h.bounded);
}

pub consume_loaded-Remembers :
    (f : GuardFaults) (now : ℕ) (other : String) (expires_at : ℕ) {nonce : String} {e bound : ℕ}
    {g : ReplayGuard}
    → bound ≤ 4096
    → now ≤ e
    → Remembers nonce e bound g
    → Remembers nonce e (bound + 1) (consume_loaded f now other expires_at g).1
unfolding consume_loaded
consume_loaded-Remembers f now other expires_at {g} small le h =
    let kept = pruned-Remembers now small le h in
    elim (Option-cases (lookup other (prune now g.entries))) [
      | inr (x, used) ↦ rw (used, consume_loaded) (Remembers-weaken kept)
      | inl fresh ↦
          rw (fresh, consume_loaded)
            (elim (Bool-cases (expires_at == 0)) [
              | inl zero_time ↦ rw (zero_time, consume_loaded) (Remembers-weaken kept)
              | inr timed ↦
                  rw (timed, consume_loaded) (record_nonce-Remembers f other expires_at fresh kept)
            ])
    ]

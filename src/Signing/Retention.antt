-- ===== src/Signing/Retention.antt =====
-- What the record of nonces keeps in memory and in its file (core/signing/replay.go), over calls of
-- `Consume` and `Seen`, failed reads and writes, and restarts.
use komari_agent.Shared.{
  ℕ, ◌+◌, ◌≤◌, ◌≡◌, refl, ◌∙◌, ◌⊎◌, inl, inr, true, false, some, String, arith, str_eq, ◌==◌,
  Bool-cases, Option-cases, length,
}
use komari_agent.Shared.Results.{err, Result-cases}
use komari_agent.Shared.Texts.{trim_space}
use komari_agent.Shared.Maps.{Dict, lookup}
use komari_agent.Signing.Replay.{
  unavailable, already_used, ReplayGuard, GuardFaults, object, new_replay_guard, load, prune,
  persist, record_nonce, consume_loaded, consume, seen,
}
use komari_agent.Signing.Nonces.{
  Remembers, Remembers-weaken, consume_loaded_used, consume_loaded-Remembers, pruned-Remembers,
}

-- The file holds the nonce until `e`, among at most `bound` entries.
pub record Stores (nonce : String) (e bound : ℕ) (g : ReplayGuard) : Type 0 where
  pub content : Dict ℕ
  pub written : g.file ≡ some (object content)
  pub entered : lookup nonce content ≡ some e
  pub bounded : length content ≤ bound

-- The file holds the nonce, and so does memory once the file is loaded.
pub record Retains (nonce : String) (e bound : ℕ) (g : ReplayGuard) : Type 0 where
  pub stores : Stores nonce e bound g
  pub remembers : (g.loaded ≡ false) ⊎ Remembers nonce e bound g

Stores-of_file :
    {nonce : String} {e bound : ℕ} {g g' : ReplayGuard}
    → g'.file ≡ g.file
    → Stores nonce e bound g
    → Stores nonce e (bound + 1) g'
Stores-of_file same h = record {
  content = h.content;
  written = same ∙ h.written;
  entered = h.entered;
  bounded = omega (arith, h.bounded);
}

pub Retains-le :
    {nonce : String} {e bound wider : ℕ} {g : ReplayGuard}
    → bound ≤ wider
    → Retains nonce e bound g
    → Retains nonce e wider g
Retains-le le h = record {
  stores = record {
    content = h.stores.content;
    written = h.stores.written;
    entered = h.stores.entered;
    bounded = omega (arith, h.stores.bounded, le);
  };
  remembers = elim h.remembers [
    | inl l ↦ inl l
    | inr m ↦ inr (record {
      is_loaded = m.is_loaded;
      entered = m.entered;
      bounded = omega (arith, m.bounded, le);
    })
  ];
}

pub load_loaded : (f : GuardFaults) (g : ReplayGuard) → g.loaded ≡ true → load f g ≡ (g, true)
unfolding load
load_loaded f g h = ground arith

load_unreadable :
    (f : GuardFaults) (g : ReplayGuard) → g.loaded ≡ false → f.read ≡ true → load f g ≡ (g, false)
unfolding load
load_unreadable f g h bad = ground arith

load_stored :
    (f : GuardFaults) (g : ReplayGuard) {content : Dict ℕ}
    → g.loaded ≡ false
    → f.read ≡ false
    → g.file ≡ some (object content)
    → load f g ≡ (record g { entries = content; loaded = true }, true)
unfolding load
load_stored f g h good file = ground arith

-- How the load ends where the file holds the nonce.
pub data Loads (f : GuardFaults) (nonce : String) (e bound : ℕ) (g : ReplayGuard) : Type 0 where
  unreadable : f.read ≡ true → load f g ≡ (g, false) → Loads f nonce e bound g
  readable :
      (g' : ReplayGuard)
      → load f g ≡ (g', true)
      → g'.file ≡ g.file
      → Remembers nonce e bound g'
      → Loads f nonce e bound g

pub load-Loads :
    (f : GuardFaults) {nonce : String} {e bound : ℕ} {g : ReplayGuard}
    → Retains nonce e bound g
    → Loads f nonce e bound g
load-Loads f {g} h = elim h.remembers [
  | inr m ↦ readable g (load_loaded f g m.is_loaded) refl m
  | inl l ↦ elim (Bool-cases f.read) [
    | inl bad ↦ unreadable bad (load_unreadable f g l bad)
    | inr good ↦
        readable (record g { entries = h.stores.content; loaded = true })
          (load_stored f g l good h.stores.written) refl
          (record { is_loaded = refl; entered = h.stores.entered; bounded = h.stores.bounded })
  ]
]

-- The file is left alone, or it is what memory is.
record_nonce-file :
    (f : GuardFaults) (nonce : String) (expires_at : ℕ) (g : ReplayGuard)
    → let g' = (record_nonce f nonce expires_at g).1 in
      (g'.file ≡ g.file) ⊎ (g'.file ≡ some (object g'.entries))
unfolding record_nonce
record_nonce-file f nonce expires_at g = elim (Result-cases (persist f)) [
  | inl (_, e) ↦ rw (e, record_nonce) (inr refl)
  | inr (x, e) ↦ rw (e, record_nonce) (inl refl)
]

consume_loaded-file :
    (f : GuardFaults) (now : ℕ) (nonce : String) (expires_at : ℕ) (g : ReplayGuard)
    → let g' = (consume_loaded f now nonce expires_at g).1 in
      (g'.file ≡ g.file) ⊎ (g'.file ≡ some (object g'.entries))
unfolding consume_loaded
consume_loaded-file f now nonce expires_at g =
    elim (Option-cases (lookup nonce (prune now g.entries))) [
      | inr (x, used) ↦ rw (used, consume_loaded) (inl refl)
      | inl fresh ↦
          rw (fresh, consume_loaded)
            (elim (Bool-cases (expires_at == 0)) [
              | inl zero_time ↦ rw (zero_time, consume_loaded) (inl refl)
              | inr timed ↦
                  rw (timed, consume_loaded)
                    (record_nonce-file f nonce expires_at
                      (record g { entries = prune now g.entries }))
            ])
    ]

Retains-of :
    {nonce : String} {e bound : ℕ} {g g' : ReplayGuard}
    → (g'.file ≡ g.file) ⊎ (g'.file ≡ some (object g'.entries))
    → Stores nonce e bound g
    → Remembers nonce e (bound + 1) g'
    → Retains nonce e (bound + 1) g'
Retains-of (inl same) stores h = record { stores = Stores-of_file same stores; remembers = inr h }
Retains-of {g'} (inr same) stores h = record {
  stores = record {
    content = g'.entries;
    written = same;
    entered = h.entered;
    bounded = h.bounded;
  };
  remembers = inr h;
}

pub consume-Retains :
    (f : GuardFaults) (now : ℕ) (other : String) (expires_at : ℕ) {nonce : String} {e bound : ℕ}
    {g : ReplayGuard}
    → bound ≤ 4096
    → now ≤ e
    → Retains nonce e bound g
    → Retains nonce e (bound + 1) (consume f now other expires_at g).1
unfolding consume
consume-Retains f now other expires_at small le h =
    elim (Bool-cases (str_eq (trim_space other) "")) [
      | inl blank ↦ rw (blank, consume) (Retains-le (omega arith) h)
      | inr filled ↦
          rw (filled, consume)
            (elim (load-Loads f h) [
              | unreadable bad l ↦ rw (l, consume) (Retains-le (omega arith) h)
              | readable g' l same m ↦
                  rw (l, consume)
                    (Retains-of {g = g'}
                      (consume_loaded-file f now (trim_space other) expires_at g')
                      (stored_as same h.stores)
                      (consume_loaded-Remembers f now (trim_space other) expires_at small le m))
            ])
    ]
  where
    stored_as :
        {nonce : String} {e bound : ℕ} {g g' : ReplayGuard}
        → g'.file ≡ g.file
        → Stores nonce e bound g
        → Stores nonce e bound g'
    stored_as same s = record {
      content = s.content;
      written = same ∙ s.written;
      entered = s.entered;
      bounded = s.bounded;
    }

pub seen-Retains :
    (f : GuardFaults) (now : ℕ) (other : String) {nonce : String} {e bound : ℕ} {g : ReplayGuard}
    → bound ≤ 4096
    → now ≤ e
    → Retains nonce e bound g
    → Retains nonce e (bound + 1) (seen f now other g).1
unfolding seen
seen-Retains f now other small le h = elim (load-Loads f h) [
  | unreadable bad l ↦ rw (l, seen) (Retains-le (omega arith) h)
  | readable g' l same m ↦
      rw (l, seen)
        (record {
          stores = Stores-of_file same h.stores;
          remembers = inr (Remembers-weaken (pruned-Remembers now small le m));
        })
]

pub restart-Retains :
    {nonce : String} {e bound : ℕ} {g : ReplayGuard}
    → Retains nonce e bound g
    → Retains nonce e (bound + 1) (new_replay_guard g.file)
restart-Retains h = record { stores = Stores-of_file refl h.stores; remembers = inl refl }

-- A call that carries the nonce by `e` is refused.
pub consume-retained :
    (f : GuardFaults) (now : ℕ) (nonce : String) (expires_at : ℕ) {e : ℕ} {g : ReplayGuard}
    → Retains (trim_space nonce) e 4096 g
    → str_eq (trim_space nonce) "" ≡ false
    → now ≤ e
    → ((consume f now nonce expires_at g).0 ≡ err already_used)
      ⊎ ((f.read ≡ true) × ((consume f now nonce expires_at g).0 ≡ err unavailable))
unfolding consume
consume-retained f now nonce expires_at h filled le = elim (load-Loads f h) [
  | unreadable bad l ↦ rw (filled, consume) (rw (l, consume) (inr (bad, refl)))
  | readable g' l same m ↦
      rw (filled, consume)
        (rw (l, consume)
          (inl (consume_loaded_used f now (trim_space nonce) expires_at g' m.entered le m.bounded)))
]

-- ===== src/Uploads/Tombstones.antt =====
-- A cancelled upload stays cancelled (files/stream.go).
use komari_agent.Shared.{
  ℕ, ◌+◌, ◌≤◌, ◌<◌, ◌≡◌, refl, ap, subst, ◌∙◌, inl, inr, Bool-cases, Option-cases, true, false, not,
  ◌&&◌, some, List, [], ◌∷◌, String, str_eq, eq_iff, eq_refl, arith, ◌==◌,
}
use komari_agent.Shared.Maps.{
  Dict, lookup, insert, erase, lookup-insert, lookup-insert_self, lookup-erase,
}
use komari_agent.Uploads.Lifecycle.{
  Lifecycle, tombstone_ttl, is_expired, prune, state_of, begin_stream, end_stream, wait_idle,
  cancel_streams,
}

-- The calls on the lifecycles, with their times.
pub data Call : Type 0 where
  begins : String → String → Call
  ends : String → String → Call
  waits cancels : String → Call

unfoldable pub perform : ℕ → Call → Dict Lifecycle → Dict Lifecycle
perform now (begins id stream) m = (begin_stream id stream now m).1
perform now (ends id stream) m = end_stream id stream m
perform now (waits id) m = wait_idle id m
perform now (cancels id) m = (cancel_streams id now m).1

unfoldable pub run : List (ℕ × Call) → Dict Lifecycle → Dict Lifecycle
run [] m = m
run ((now, c) ∷ calls) m = run calls (perform now c m)

-- All calls come from a time on, before its tombstone expires.
abbrev pub AllWithin : ℕ → List (ℕ × Call) → Type 0
AllWithin start [] = Unit {0}
AllWithin start ((now, c) ∷ calls) =
    ((start ≤ now) × (now < start + tombstone_ttl)) × AllWithin start calls

-- An upload was cancelled at `start` or later.
abbrev IsDead : String → ℕ → Dict Lifecycle → Type 0
IsDead id start m =
    (s : Lifecycle) × (lookup id m ≡ some s) × (s.canceled ≡ true) × (start ≤ s.canceled_at)

is_expired-false :
    (start now : ℕ) (s : Lifecycle)
    → 0 < start
    → now < start + tombstone_ttl
    → start ≤ s.canceled_at
    → is_expired now s ≡ false
unfolding is_expired
is_expired-false start now s a b c = ground arith

lookup-prune :
    (id : String) (start now : ℕ) (s : Lifecycle) (m : Dict Lifecycle)
    → 0 < start
    → now < start + tombstone_ttl
    → start ≤ s.canceled_at
    → lookup id m ≡ some s
    → lookup id (prune now m) ≡ some s
unfolding prune
lookup-prune id start now s [] a b c h = ground arith
lookup-prune id start now s ((j, t) ∷ m) a b c h = elim (Bool-cases (str_eq j id)) [
  | inl e ↦
      let same : t ≡ s = ground (arith, rw e at h) in
      let alive : is_expired now t ≡ false =
        ap (is_expired now) same ∙ is_expired-false start now s a b c in
      rw (alive, prune) (rw e (ap some same))
  | inr e ↦
      let deeper = lookup-prune id start now s m a b c (rw e at h) in
      elim (Bool-cases (is_expired now t)) [
        | inl x ↦ rw (x, prune) deeper
        | inr x ↦ rw (x, prune) (rw e deeper)
      ]
]

insert-IsDead :
    (id j : String) (start : ℕ) (t : Lifecycle) (m : Dict Lifecycle)
    → (str_eq j id ≡ true → (t.canceled ≡ true) × (start ≤ t.canceled_at))
    → IsDead id start m
    → IsDead id start (insert j t m)
insert-IsDead id j start t m new (s, found, dead, later) = elim (Bool-cases (str_eq j id)) [
  | inl e ↦ let (c, l) = new e in (t, lookup-insert j id t m ∙ rw e refl, c, l)
  | inr e ↦ (s, lookup-insert j id t m ∙ rw e found, dead, later)
]

module _ (id : String) (start now : ℕ) (m : Dict Lifecycle) (a : 0 < start) (from : start ≤ now)
    (before : now < start + tombstone_ttl) (dead : IsDead id start m) where
  pruned-IsDead : IsDead id start (prune now m)
  pruned-IsDead =
      let (s, found, c, later) = dead in
      (s, lookup-prune id start now s m a before later found, c, later)

  state_of-IsDead :
      (j : String)
      → str_eq j id ≡ true
      → ((state_of j (prune now m)).canceled ≡ true)
        × (start ≤ (state_of j (prune now m)).canceled_at)
  state_of-IsDead j e =
      let (s, found, c, later) = pruned-IsDead in
      let same : state_of j (prune now m) ≡ s = ground (arith, eq_iff j id) in rw same (c, later)

  begin_stream-IsDead : (j stream : String) → IsDead id start (begin_stream j stream now m).1
  unfolding begin_stream
  begin_stream-IsDead j stream = elim (Bool-cases (str_eq j "")) [
    | inl e ↦ rw (e, begin_stream) dead
    | inr e ↦
        rw (e, begin_stream)
          (elim (Bool-cases (state_of j (prune now m)).canceled) [
            | inl c ↦
                rw (c, begin_stream)
                  (insert-IsDead id j start (state_of j (prune now m)) (prune now m)
                    (state_of-IsDead j) pruned-IsDead)
            | inr c ↦
                rw (c, begin_stream)
                  (insert-IsDead id j start _ (prune now m)
                    (λ same. ground (arith, state_of-IsDead j same)) pruned-IsDead)
          ])
  ]

  begin_stream-false :
      (stream : String) → str_eq id "" ≡ false → (begin_stream id stream now m).0 ≡ false
  unfolding begin_stream
  begin_stream-false stream h =
      let (c, _) = state_of-IsDead id (eq_refl id) in
      rw (h, begin_stream) (rw (c, begin_stream) refl)

  cancel_streams-IsDead : (j : String) → IsDead id start (cancel_streams j now m).1
  unfolding cancel_streams
  cancel_streams-IsDead j = elim (Bool-cases (str_eq j "")) [
    | inl e ↦ rw (e, cancel_streams) dead
    | inr e ↦
        rw (e, cancel_streams)
          (insert-IsDead id j start _ (prune now m) (λ same. (refl, from)) pruned-IsDead)
  ]

erase-IsDead :
    (id j : String) (start : ℕ) (m : Dict Lifecycle)
    → str_eq j id ≡ false
    → IsDead id start m
    → IsDead id start (erase j m)
erase-IsDead id j start m e (s, found, c, later) = (s, lookup-erase j id m ∙ rw e found, c, later)

-- What stands under a name when the upload of that name was cancelled.
found-IsDead :
    (id j : String) (start : ℕ) (s : Lifecycle) (m : Dict Lifecycle)
    → IsDead id start m
    → lookup j m ≡ some s
    → str_eq j id ≡ true
    → (s.canceled ≡ true) × (start ≤ s.canceled_at)
found-IsDead id j start s m (t, found, c, later) e same =
    let eq : t ≡ s = ground (arith, eq_iff j id) in
    subst (λ (u : Lifecycle). (u.canceled ≡ true) × (start ≤ u.canceled_at)) eq (c, later)

end_stream-IsDead :
    (id : String) (start : ℕ) (j stream : String) (m : Dict Lifecycle)
    → IsDead id start m
    → IsDead id start (end_stream j stream m)
unfolding end_stream
end_stream-IsDead id start j stream m dead = elim (Option-cases (lookup j m)) [
  | inl e ↦ rw (e, end_stream) dead
  | inr (s, e) ↦
      let keep = found-IsDead id j start s m dead e in
      rw (e, end_stream)
        (elim (Bool-cases (s.active == 0)) [
          | inl z ↦ rw (z, end_stream) (insert-IsDead id j start _ m keep dead)
          | inr z ↦
              rw (z, end_stream)
                (elim (Bool-cases (s.active == 1 && not s.canceled)) [
                  | inr o ↦ rw (o, end_stream) (insert-IsDead id j start _ m keep dead)
                  | inl o ↦ rw (o, end_stream) (erase-IsDead id j start m (other s keep o) dead)
                ])
        ])
]
  where
    other :
        (s : Lifecycle)
        → (str_eq j id ≡ true → (s.canceled ≡ true) × (start ≤ s.canceled_at))
        → (s.active == 1 && not s.canceled) ≡ true
        → str_eq j id ≡ false
    other s keep o = elim (Bool-cases (str_eq j id)) [
      | inr e ↦ e
      | inl e ↦ let (c, _) = keep e in ground arith
    ]

wait_idle-IsDead :
    (id : String) (start : ℕ) (j : String) (m : Dict Lifecycle)
    → IsDead id start m
    → IsDead id start (wait_idle j m)
unfolding wait_idle
wait_idle-IsDead id start j m dead = elim (Option-cases (lookup j m)) [
  | inl e ↦ rw (e, wait_idle) dead
  | inr (s, e) ↦
      rw (e, wait_idle)
        (elim (Bool-cases (s.active == 0 && not s.canceled)) [
          | inr o ↦ rw (o, wait_idle) dead
          | inl o ↦
              rw (o, wait_idle)
                (elim (Bool-cases (str_eq j id)) [
                  | inr d ↦ erase-IsDead id j start m d dead
                  | inl d ↦ let (c, _) = found-IsDead id j start s m dead e d in ground arith
                ])
        ])
]

perform-IsDead :
    (id : String) (start now : ℕ) (c : Call) (m : Dict Lifecycle)
    → 0 < start
    → start ≤ now
    → now < start + tombstone_ttl
    → IsDead id start m
    → IsDead id start (perform now c m)
unfolding perform
perform-IsDead id start now (begins j stream) m a from before dead =
    begin_stream-IsDead id start now m a from before dead j stream
perform-IsDead id start now (ends j stream) m a from before dead =
    end_stream-IsDead id start j stream m dead
perform-IsDead id start now (waits j) m a from before dead = wait_idle-IsDead id start j m dead
perform-IsDead id start now (cancels j) m a from before dead =
    cancel_streams-IsDead id start now m a from before dead j

run-IsDead :
    (id : String) (start : ℕ) (calls : List (ℕ × Call)) (m : Dict Lifecycle)
    → 0 < start
    → AllWithin start calls
    → IsDead id start m
    → IsDead id start (run calls m)
unfolding run
run-IsDead id start [] m a within dead = dead
run-IsDead id start ((now, c) ∷ calls) m a ((from, before), within) dead =
    run-IsDead id start calls (perform now c m) a within
      (perform-IsDead id start now c m a from before dead)

cancelled-IsDead :
    (id : String) (start : ℕ) (m : Dict Lifecycle)
    → str_eq id "" ≡ false
    → IsDead id start (cancel_streams id start m).1
unfolding cancel_streams
cancelled-IsDead id start m h =
    rw (h, cancel_streams) (_, lookup-insert_self id _ (prune start m), refl, omega arith)

-- After an upload was cancelled, whatever calls on it and on other uploads follow, no stream of it
-- begins within fifteen minutes of the cancellation.
pub cancelled_stays :
    (id stream : String) (start now : ℕ) (calls : List (ℕ × Call)) (m : Dict Lifecycle)
    → str_eq id "" ≡ false
    → 0 < start
    → AllWithin start calls
    → start ≤ now
    → now < start + tombstone_ttl
    → (begin_stream id stream now (run calls (cancel_streams id start m).1)).0 ≡ false
cancelled_stays id stream start now calls m h a within from before =
    begin_stream-false id start now (run calls (cancel_streams id start m).1) a from before
      (run-IsDead id start calls (cancel_streams id start m).1 a within
        (cancelled-IsDead id start m h))
      stream h

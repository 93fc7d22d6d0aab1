-- ===== src/Netstatic/Sampling.antt =====
-- Samples and flushes in any order (monitoring/netstatic/static.go): how the reported total of an
-- interface follows the counter that the system reports.
use komari_agent.Shared.{
  ℕ, ◌+◌, ◌%◌, ◌≤◌, ◌≡◌, refl, ap, ◌∙◌, inl, inr, Bool, Bool-cases, true, false, ◌&&◌, some, List,
  [], ◌∷◌, ◌++◌, String, str_eq, eq_iff, arith, leb, if◌then◌else◌, lookup, lookup-insert,
}
use komari_agent.Netstatic.Model.{TrafficData, Counter, State, word, is_nic_allowed}
use komari_agent.Netstatic.Counters.{safe_delta, Reading, recorded, count, sample_each, flush_cache}
use komari_agent.Netstatic.Sums.{Direction, sending, receiving, sum, named, sum-append_to}
use komari_agent.Netstatic.Conservation.{total, held, get_total_traffic-held, flush_cache-held}

abbrev pub counted : Direction → Counter → ℕ
counted sending c = c.sent
counted receiving c = c.received

abbrev pub counter_of : Reading → Counter
counter_of io = record { sent = io.bytes_sent; received = io.bytes_received }

recorded-sum :
    (d : Direction) (ts : ℕ) (io : Reading) (prev : Counter)
    → prev.sent ≤ io.bytes_sent
    → prev.received ≤ io.bytes_received
    → sum d (recorded ts io (some prev)) + counted d prev ≡ counted d (counter_of io)
unfolding recorded safe_delta
recorded-sum sending ts io prev a b = ground arith
recorded-sum receiving ts io prev a b = ground arith

count-sum :
    (d : Direction) (name : String) (ts : ℕ) (io : Reading) (s : State)
    → sum d (named name (count ts io s).static_cache)
      ≡ sum d (named name s.static_cache)
        + (if str_eq io.name name
            then sum d (recorded ts io (lookup io.name s.last_counters))
            else 0)
unfolding count
count-sum d name ts io s = by_entries (recorded ts io (lookup io.name s.last_counters)) refl
  where
    by_entries :
        (tds : List TrafficData)
        → recorded ts io (lookup io.name s.last_counters) ≡ tds
        → sum d (named name (count ts io s).static_cache)
          ≡ sum d (named name s.static_cache)
            + (if str_eq io.name name
                then sum d (recorded ts io (lookup io.name s.last_counters))
                else 0)
    by_entries [] e = rw (e, count) (ground (arith, eq_iff io.name name))
    by_entries (td ∷ rest) e =
        rw (e, count) (sum-append_to d name io.name (td ∷ rest) s.static_cache)

-- Sampling and flushing, as the tickers order them.
pub data Event : Type 0 where
  sample : ℕ → List Reading → Event
  flush : ℕ → Event

unfoldable pub observe : List Event → State → State
observe [] s = s
observe (sample ts ios ∷ events) s = observe events (sample_each ts ios s)
observe (flush ts ∷ events) s = observe events (flush_cache ts s)

abbrev pub readings : List Event → List Reading
readings [] = []
readings (sample ts ios ∷ events) = ios ++ readings events
readings (flush ts ∷ events) = readings events

-- The last counter of an interface, and whether its counters never go back.
abbrev pub final : String → Counter → List Reading → Counter
final name c [] = c
final name c (io ∷ ios) = final name (if str_eq io.name name then counter_of io else c) ios

abbrev pub rises : String → Counter → List Reading → Bool
rises name c [] = true
rises name c (io ∷ ios) =
    if str_eq io.name name
    then leb c.sent io.bytes_sent
      && leb c.received io.bytes_received
      && rises name (counter_of io) ios
    else rises name c ios

-- An interface is monitored and was last counted at `c`.
abbrev Follows : String → Counter → State → Type 0
Follows name c s = (is_nic_allowed s.config name ≡ true) × (lookup name s.last_counters ≡ some c)

-- From `s`, where the counter is `c`, to `t`, where it is `c'`, the sum grows as the counter does.
abbrev Tracks : Direction → String → Counter → Counter → State → State → Type 0
Tracks d name c c' s t =
    Follows name c' t
    × ((held d name t + counted d c) % word ≡ (held d name s + counted d c') % word)

Tracks-trans :
    (d : Direction) (name : String) (c c1 c2 : Counter) (s s1 s2 : State)
    → Tracks d name c c1 s s1
    → Tracks d name c1 c2 s1 s2
    → Tracks d name c c2 s s2
Tracks-trans d name c c1 c2 s s1 s2 (_, e) (h, e') = (h, omega (arith, e, e'))

count-other :
    (d : Direction) (name : String) (ts : ℕ) (io : Reading) (c : Counter) (s : State)
    → Follows name c s
    → str_eq io.name name ≡ false
    → Tracks d name c c s (count ts io s)
unfolding count
count-other d name ts io c s (allowed, h) e = (
  (allowed, lookup-insert io.name name (counter_of io) s.last_counters ∙ rw e h),
  ground (arith, count-sum d name ts io s),
)

count-same :
    (d : Direction) (name : String) (ts : ℕ) (io : Reading) (c : Counter) (s : State)
    → Follows name c s
    → str_eq io.name name ≡ true
    → c.sent ≤ io.bytes_sent
    → c.received ≤ io.bytes_received
    → Tracks d name c (counter_of io) s (count ts io s)
unfolding count
count-same d name ts io c s (allowed, h) e a b = (
  (allowed, lookup-insert io.name name (counter_of io) s.last_counters ∙ rw e refl),
  ground (arith, eq_iff io.name name, count-sum d name ts io s, recorded-sum d ts io c a b),
)

sample_one-Tracks :
    (d : Direction) (name : String) (ts : ℕ) (io : Reading) (ios : List Reading) (c : Counter)
    (s : State)
    → Follows name c s
    → rises name c (io ∷ ios) ≡ true
    → Tracks d name c
        (if str_eq io.name name then counter_of io else c)
        s
        (if is_nic_allowed s.config io.name then count ts io s else s)
      × (rises name (if str_eq io.name name then counter_of io else c) ios ≡ true)
sample_one-Tracks d name ts io ios c s h r = elim (Bool-cases (str_eq io.name name)) [
  | inl e ↦
      let same : io.name ≡ name = ground (arith, eq_iff io.name name) in
      let allowed : is_nic_allowed s.config io.name ≡ true =
        ap (is_nic_allowed s.config) same ∙ h.0 in
      let le : (c.sent ≤ io.bytes_sent)
          × (c.received ≤ io.bytes_received)
          × (rises name (counter_of io) ios ≡ true) =
        ground (arith, rw e at r) in
      rw allowed (rw e (count-same d name ts io c s h e le.0 le.1, le.2))
  | inr e ↦ rw e (by_allowed e, rw e at r)
]
  where
    by_allowed :
        str_eq io.name name ≡ false
        → Tracks d name c c s (if is_nic_allowed s.config io.name then count ts io s else s)
    by_allowed e = elim (Bool-cases (is_nic_allowed s.config io.name)) [
      | inl a ↦ rw a (count-other d name ts io c s h e)
      | inr a ↦ rw a (h, refl)
    ]

sample_each-Tracks :
    (d : Direction) (name : String) (ts : ℕ) (ios rest : List Reading) (c : Counter) (s : State)
    → Follows name c s
    → rises name c (ios ++ rest) ≡ true
    → Tracks d name c (final name c ios) s (sample_each ts ios s)
      × (rises name (final name c ios) rest ≡ true)
unfolding sample_each
sample_each-Tracks d name ts [] rest c s h r = ((h, refl), r)
sample_each-Tracks d name ts (io ∷ ios) rest c s h r =
    let (step, r') = sample_one-Tracks d name ts io (ios ++ rest) c s h r in
    let c1 = if str_eq io.name name then counter_of io else c in
    let s1 = if is_nic_allowed s.config io.name then count ts io s else s in
    let (steps, r'') = sample_each-Tracks d name ts ios rest c1 s1 step.0 r' in
    (Tracks-trans d name c c1 (final name c1 ios) s s1 (sample_each ts ios s1) step steps, r'')

final-append :
    (name : String) (c : Counter) (xs ys : List Reading)
    → final name c (xs ++ ys) ≡ final name (final name c xs) ys
final-append name c [] ys = refl
final-append name c (x ∷ xs) ys =
    final-append name (if str_eq x.name name then counter_of x else c) xs ys

observe-Tracks :
    (d : Direction) (name : String) (events : List Event) (c : Counter) (s : State)
    → Follows name c s
    → rises name c (readings events) ≡ true
    → Tracks d name c (final name c (readings events)) s (observe events s)
unfolding observe flush_cache
observe-Tracks d name [] c s h r = (h, refl)
observe-Tracks d name (sample ts ios ∷ events) c s h r =
    let (step, r') = sample_each-Tracks d name ts ios (readings events) c s h r in
    let c1 = final name c ios in
    let s1 = sample_each ts ios s in
    rw (final-append name c ios (readings events)) (
      Tracks-trans d name c c1 (final name c1 (readings events)) s s1 (observe events s1) step
        (observe-Tracks d name events c1 s1 step.0 r'))
observe-Tracks d name (flush ts ∷ events) c s h r =
    let s1 = flush_cache ts s in
    let c' = final name c (readings events) in
    Tracks-trans d name c c c' s s1 (observe events s1)
      (h, omega (arith, flush_cache-held d name ts s)) (observe-Tracks d name events c s1 h r)

-- For an interface that is monitored and was last counted at `c`, and over any sequence of samples
-- and flushes in which its counters never go back, the total that is reported for it grows by just
-- what the counter grows by, modulo 2^64, in each direction.
pub observe-total :
    (d : Direction) (name : String) (events : List Event) (c : Counter) (s : State)
    → is_nic_allowed s.config name ≡ true
    → lookup name s.last_counters ≡ some c
    → rises name c (readings events) ≡ true
    → (total d name (observe events s) + counted d c) % word
      ≡ (total d name s + counted d (final name c (readings events))) % word
observe-total d name events c s allowed h r =
    let (_, e) = observe-Tracks d name events c s (allowed, h) r in
    omega
      (arith, e, get_total_traffic-held d name s, get_total_traffic-held d name (observe events s))

-- ===== src/Netstatic/Conservation.antt =====
-- The traffic of an interface that sampling and flushing account for
-- (monitoring/netstatic/static.go).
use komari_agent.Shared.{
  ℕ, ◌+◌, ◌%◌, ◌<◌, ◌≡◌, refl, ap, ◌∙◌, inl, inr, Bool-cases, List, [], ◌∷◌, String, str_eq, eq_iff,
  arith, if◌then◌else◌, from_option, Dict, lookup-insert,
}
use komari_agent.Netstatic.Model.{TrafficData, State, word}
use komari_agent.Netstatic.Counters.{sum_tx, sum_rx, flush_into, flush_each, flush_cache}
use komari_agent.Netstatic.Queries.{no_traffic, total_at, add, add_totals, get_total_traffic}
use komari_agent.Netstatic.Sums.{
  Direction, sending, receiving, bytes, sum, named, sum_tx-mod, sum_rx-mod, sum-named,
  sum-append_to,
}

-- What the agent reports for an interface.
abbrev pub total : Direction → String → State → ℕ
total d name s = bytes d (total_at name (get_total_traffic s))

-- What store and cache hold of an interface, without wrap-around.
abbrev pub held : Direction → String → State → ℕ
held d name s = sum d (named name s.store.interfaces) + sum d (named name s.static_cache)

flush_into-sum :
    (d : Direction) (name : String) (ts : ℕ) (n : String) (arr : List TrafficData)
    (m : Dict (List TrafficData))
    → sum d (named name (flush_into ts n arr m)) % word
      ≡ (sum d (named name m) + (if str_eq n name then sum d arr else 0)) % word
unfolding flush_into
flush_into-sum sending name ts n arr m = ground (
  arith,
  sum_tx-mod 0 arr (omega arith),
  sum_rx-mod 0 arr (omega arith),
  sum-append_to sending name n
      (record { timestamp = ts; tx = sum_tx 0 arr; rx = sum_rx 0 arr } ∷ []) m,
)
flush_into-sum receiving name ts n arr m = ground (
  arith,
  sum_tx-mod 0 arr (omega arith),
  sum_rx-mod 0 arr (omega arith),
  sum-append_to receiving name n
      (record { timestamp = ts; tx = sum_tx 0 arr; rx = sum_rx 0 arr } ∷ []) m,
)

flush_each-sum :
    (d : Direction) (name : String) (ts : ℕ) (cache m : Dict (List TrafficData))
    → sum d (named name (flush_each ts cache m)) % word
      ≡ (sum d (named name m) + sum d (named name cache)) % word
unfolding flush_each
flush_each-sum d name ts [] m = omega arith
flush_each-sum d name ts ((n, arr) ∷ cache) m = omega (
  arith,
  flush_each-sum d name ts cache (flush_into ts n arr m),
  flush_into-sum d name ts n arr m,
  sum-named d name n arr cache,
)

add-bytes :
    (d : Direction) (name n : String) (tx rx : ℕ) (res : Dict TrafficData)
    → bytes d (total_at name (add n tx rx res)) ≡ (
        if str_eq n name
        then (bytes d (total_at n res) + bytes d (record { timestamp = 0; tx = tx; rx = rx }))
          % word
        else bytes d (total_at name res))
unfolding add
add-bytes d name n tx rx res = elim (Bool-cases (str_eq n name)) [
  | inl e ↦ rw (e) (
      ap (λ o. bytes d (from_option no_traffic o)) (lookup-insert n name _ res)
      ∙ rw e (by_direction d))
  | inr e ↦
      rw (e) (ap (λ o. bytes d (from_option no_traffic o)) (lookup-insert n name _ res) ∙ rw e refl)
]
  where
    by_direction :
        (d : Direction)
        → bytes d (record (total_at n res) {
          tx = ((total_at n res).tx + tx) % word;
          rx = ((total_at n res).rx + rx) % word;
        })
          ≡ (bytes d (total_at n res) + bytes d (record { timestamp = 0; tx = tx; rx = rx })) % word
    by_direction sending = refl
    by_direction receiving = refl

pub add-total :
    (d : Direction) (name n : String) (arr : List TrafficData) (res : Dict TrafficData)
    → bytes d (total_at name res) < word
    → bytes d (total_at name (add n (sum_tx 0 arr) (sum_rx 0 arr) res))
      ≡ (bytes d (total_at name res) + (if str_eq n name then sum d arr else 0)) % word
add-total sending name n arr res h = ground (
  arith,
  eq_iff n name,
  add-bytes sending name n (sum_tx 0 arr) (sum_rx 0 arr) res,
  sum_tx-mod 0 arr (omega arith),
)
add-total receiving name n arr res h = ground (
  arith,
  eq_iff n name,
  add-bytes receiving name n (sum_tx 0 arr) (sum_rx 0 arr) res,
  sum_rx-mod 0 arr (omega arith),
)

add_totals-total :
    (d : Direction) (name : String) (m : Dict (List TrafficData)) (res : Dict TrafficData)
    → bytes d (total_at name res) < word
    → bytes d (total_at name (add_totals m res))
      ≡ (bytes d (total_at name res) + sum d (named name m)) % word
unfolding add_totals
add_totals-total d name [] res h = omega arith
add_totals-total d name ((n, arr) ∷ m) res h =
    let added = add-total d name n arr res h in
    omega (
      arith,
      added,
      sum-named d name n arr m,
      add_totals-total d name m (add n (sum_tx 0 arr) (sum_rx 0 arr) res) (omega (arith, added)),
    )

pub nothing-total : (d : Direction) (name : String) → bytes d (total_at name []) ≡ 0
nothing-total sending name = refl
nothing-total receiving name = refl

-- The total that `GetTotalTraffic` returns for an interface is the sum of the entries that the
-- store and the cache hold of it, modulo 2^64.
pub get_total_traffic-held :
    (d : Direction) (name : String) (s : State) → total d name s ≡ held d name s % word
unfolding get_total_traffic
get_total_traffic-held d name s =
    let nothing = nothing-total d name in
    let stored = add_totals-total d name s.store.interfaces [] (omega (arith, nothing)) in
    omega (
      arith,
      nothing,
      stored,
      add_totals-total d name s.static_cache (add_totals s.store.interfaces [])
          (omega (arith, stored)),
    )

pub flush_cache-held :
    (d : Direction) (name : String) (ts : ℕ) (s : State)
    → held d name (flush_cache ts s) % word ≡ held d name s % word
unfolding flush_cache
flush_cache-held d name ts s =
    omega (arith, flush_each-sum d name ts s.static_cache s.store.interfaces)

-- A flush, at any time, leaves the total that is reported for each interface as it is, in both
-- directions.
pub flush_cache-total :
    (d : Direction) (name : String) (ts : ℕ) (s : State)
    → total d name (flush_cache ts s) ≡ total d name s
flush_cache-total d name ts s = omega (
  arith,
  get_total_traffic-held d name s,
  get_total_traffic-held d name (flush_cache ts s),
  flush_cache-held d name ts s,
)

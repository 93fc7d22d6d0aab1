-- ===== src/Netstatic/Reports.antt =====
-- The totals of a period (`GetTotalTrafficBetween` of monitoring/netstatic/static.go).
use komari_agent.Shared.{
  ℕ, ◌+◌, ◌%◌, ◌≤◌, ◌<◌, ◌≡◌, refl, ap, inl, inr, Bool-cases, false, ◌||◌, List, [], ◌∷◌, ◌++◌,
  String, str_eq, arith, ltb, if◌then◌else◌, Dict,
}
use komari_agent.Netstatic.Model.{TrafficData, State, word}
use komari_agent.Netstatic.Counters.{sum_tx, sum_rx}
use komari_agent.Netstatic.Queries.{
  total_at, add, in_range, within, add_between, get_total_traffic_between,
}
use komari_agent.Netstatic.Sums.{
  Direction, sending, receiving, bytes, sum, named, sum_tx-mod, sum_rx-mod,
}
use komari_agent.Netstatic.Conservation.{total, add-total, nothing-total, get_total_traffic-held}

-- What the agent reports for an interface in a period.
abbrev pub total_between : Direction → String → ℕ → ℕ → State → ℕ
total_between d name start end s = bytes d (total_at name (get_total_traffic_between start end s))

abbrev held_between : Direction → String → ℕ → ℕ → State → ℕ
held_between d name start end s =
    sum d (within start end (named name s.store.interfaces))
    + sum d (within start end (named name s.static_cache))

sum-within_append :
    (d : Direction) (start end : ℕ) (xs ys : List TrafficData)
    → sum d (within start end (xs ++ ys))
      ≡ sum d (within start end xs) + sum d (within start end ys)
sum-within_append d start end [] ys = omega arith
sum-within_append d start end (x ∷ xs) ys = ground (arith, sum-within_append d start end xs ys)

sum-within-named :
    (d : Direction) (start end : ℕ) (name n : String) (arr : List TrafficData)
    (m : Dict (List TrafficData))
    → sum d (within start end (named name ((n, arr) ∷ m)))
      ≡ (if str_eq n name then sum d (within start end arr) else 0)
        + sum d (within start end (named name m))
sum-within-named d start end name n arr m = elim (Bool-cases (str_eq n name)) [
  | inl e ↦ rw e (sum-within_append d start end arr (named name m))
  | inr e ↦ rw e (omega arith)
]

add_some-total :
    (d : Direction) (name n : String) (arr : List TrafficData) (res : Dict TrafficData)
    → bytes d (total_at name res) < word
    → bytes d (
        total_at name (
          if ltb 0 (sum_tx 0 arr) || ltb 0 (sum_rx 0 arr)
          then add n (sum_tx 0 arr) (sum_rx 0 arr) res
          else res))
      ≡ (bytes d (total_at name res) + (if str_eq n name then sum d arr else 0)) % word
add_some-total d name n arr res h =
    elim (Bool-cases (ltb 0 (sum_tx 0 arr) || ltb 0 (sum_rx 0 arr))) [
      | inl e ↦ rw e (add-total d name n arr res h)
      | inr e ↦ rw e (by_direction d e h)
    ]
  where
    by_direction :
        (d : Direction)
        → (ltb 0 (sum_tx 0 arr) || ltb 0 (sum_rx 0 arr)) ≡ false
        → bytes d (total_at name res) < word
        → bytes d (total_at name res)
          ≡ (bytes d (total_at name res) + (if str_eq n name then sum d arr else 0)) % word
    by_direction sending e h = ground (arith, sum_tx-mod 0 arr (omega arith))
    by_direction receiving e h = ground (arith, sum_rx-mod 0 arr (omega arith))

add_between-total :
    (d : Direction) (start end : ℕ) (name : String) (m : Dict (List TrafficData))
    (res : Dict TrafficData)
    → bytes d (total_at name res) < word
    → bytes d (total_at name (add_between start end m res))
      ≡ (bytes d (total_at name res) + sum d (within start end (named name m))) % word
unfolding add_between
add_between-total d start end name [] res h = omega arith
add_between-total d start end name ((n, arr) ∷ m) res h =
    let kept = within start end arr in
    let added = add_some-total d name n kept res h in
    omega (
      arith,
      added,
      sum-within-named d start end name n arr m,
      add_between-total d start end name m
          (if ltb 0 (sum_tx 0 kept) || ltb 0 (sum_rx 0 kept)
            then add n (sum_tx 0 kept) (sum_rx 0 kept) res
            else res)
          (omega (arith, added)),
    )

total_between-held :
    (d : Direction) (name : String) (start end : ℕ) (s : State)
    → total_between d name start end s ≡ held_between d name start end s % word
unfolding get_total_traffic_between
total_between-held d name start end s =
    let nothing = nothing-total d name in
    let stored =
      add_between-total d start end name s.store.interfaces [] (omega (arith, nothing)) in
    omega (
      arith,
      nothing,
      stored,
      add_between-total d start end name s.static_cache
          (add_between start end s.store.interfaces []) (omega (arith, stored)),
    )

within-all : (xs : List TrafficData) → within 0 0 xs ≡ xs
unfolding in_range
within-all [] = refl
within-all (x ∷ xs) = ap (◌∷◌ x) (within-all xs)

-- Without bounds, the totals of a period are the totals.
pub between_all :
    (d : Direction) (name : String) (s : State) → total_between d name 0 0 s ≡ total d name s
between_all d name s = omega (
  arith,
  total_between-held d name 0 0 s,
  get_total_traffic-held d name s,
  ap (sum d) (within-all (named name s.store.interfaces)),
  ap (sum d) (within-all (named name s.static_cache)),
)

sum-within_split :
    (d : Direction) (start middle end : ℕ) (xs : List TrafficData)
    → start ≤ middle
    → 0 < middle
    → middle < end
    → sum d (within start end xs)
      ≡ sum d (within start middle xs) + sum d (within (middle + 1) end xs)
unfolding in_range
sum-within_split d start middle end [] a b c = omega arith
sum-within_split d start middle end (x ∷ xs) a b c =
    ground (arith, sum-within_split d start middle end xs a b c)

-- A period that is cut in two, after second `middle`, has the sum of the totals of its parts as its
-- total, modulo 2^64, for each interface and direction; an entry falls in just one of the parts.
pub between_split :
    (d : Direction) (name : String) (start middle end : ℕ) (s : State)
    → start ≤ middle
    → 0 < middle
    → middle < end
    → total_between d name start end s
      ≡ (total_between d name start middle s + total_between d name (middle + 1) end s) % word
between_split d name start middle end s a b c = omega (
  arith,
  total_between-held d name start end s,
  total_between-held d name start middle s,
  total_between-held d name (middle + 1) end s,
  sum-within_split d start middle end (named name s.store.interfaces) a b c,
  sum-within_split d start middle end (named name s.static_cache) a b c,
)

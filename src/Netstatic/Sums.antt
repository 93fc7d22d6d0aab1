-- ===== src/Netstatic/Sums.antt =====
-- The sums of monitoring/netstatic/static.go against plain sums of natural numbers, for all the
-- entries of one interface, sent and received alike.
use komari_agent.Shared.{
  ℕ, ◌+◌, ◌%◌, ◌<◌, ◌≡◌, refl, ap, inl, inr, Bool-cases, true, false, List, [], ◌∷◌, ◌++◌, String,
  str_eq, eq_iff, arith, if◌then◌else◌, insert, Dict,
}
use komari_agent.Netstatic.Model.{TrafficData, word, entries, append_to}
use komari_agent.Netstatic.Counters.{sum_tx, sum_rx}

-- The two numbers of an entry.
pub data Direction : Type 0 where
  sending receiving : Direction

abbrev pub bytes : Direction → TrafficData → ℕ
bytes sending td = td.tx
bytes receiving td = td.rx

abbrev pub sum : Direction → List TrafficData → ℕ
sum d [] = 0
sum d (td ∷ tds) = bytes d td + sum d tds

-- All entries of an interface, in the order of the map's list.
abbrev pub named : String → Dict (List TrafficData) → List TrafficData
named name [] = []
named name ((n, arr) ∷ m) = if str_eq n name then arr ++ named name m else named name m

pub sum-append : (d : Direction) (xs ys : List TrafficData) → sum d (xs ++ ys) ≡ sum d xs + sum d ys
sum-append d [] ys = omega arith
sum-append d (x ∷ xs) ys = omega (arith, sum-append d xs ys)

pub sum_tx-mod :
    (acc : ℕ) (xs : List TrafficData) → acc < word → sum_tx acc xs ≡ (acc + sum sending xs) % word
unfolding sum_tx
sum_tx-mod acc [] h = omega arith
sum_tx-mod acc (x ∷ xs) h = omega (arith, sum_tx-mod ((acc + x.tx) % word) xs (omega arith))

pub sum_rx-mod :
    (acc : ℕ) (xs : List TrafficData) → acc < word → sum_rx acc xs ≡ (acc + sum receiving xs) % word
unfolding sum_rx
sum_rx-mod acc [] h = omega arith
sum_rx-mod acc (x ∷ xs) h = omega (arith, sum_rx-mod ((acc + x.rx) % word) xs (omega arith))

pub sum-named :
    (d : Direction) (name n : String) (arr : List TrafficData) (m : Dict (List TrafficData))
    → sum d (named name ((n, arr) ∷ m))
      ≡ (if str_eq n name then sum d arr else 0) + sum d (named name m)
sum-named d name n arr m = ground (arith, sum-append d arr (named name m))

append_to-same :
    (n k : String) (xs arr : List TrafficData) (m : Dict (List TrafficData))
    → str_eq k n ≡ true
    → append_to n xs ((k, arr) ∷ m) ≡ (n, arr ++ xs) ∷ m
append_to-same n k xs arr m h = rw h refl

entries-other :
    (n k : String) (arr : List TrafficData) (m : Dict (List TrafficData))
    → str_eq k n ≡ false
    → entries n ((k, arr) ∷ m) ≡ entries n m
entries-other n k arr m h = rw h refl

append_to-other :
    (n k : String) (xs arr : List TrafficData) (m : Dict (List TrafficData))
    → str_eq k n ≡ false
    → append_to n xs ((k, arr) ∷ m) ≡ (k, arr) ∷ append_to n xs m
append_to-other n k xs arr m h =
    rw h (ap (λ es. (k, arr) ∷ insert n (es ++ xs) m) (entries-other n k arr m h))

-- Entries that are appended to an interface are added to its sum alone.
pub sum-append_to :
    (d : Direction) (name n : String) (xs : List TrafficData) (m : Dict (List TrafficData))
    → sum d (named name (append_to n xs m))
      ≡ sum d (named name m) + (if str_eq n name then sum d xs else 0)
sum-append_to d name n xs [] = ground (arith, sum-append d xs [], eq_iff n name)
sum-append_to d name n xs ((k, arr) ∷ m) = elim (Bool-cases (str_eq k n)) [
  | inl e ↦ rw (append_to-same n k xs arr m e) (
      ground (
        arith,
        eq_iff k n,
        sum-named d name n (arr ++ xs) m,
        sum-named d name k arr m,
        sum-append d arr xs,
      ))
  | inr e ↦ rw (append_to-other n k xs arr m e) (
      ground (
        arith,
        sum-named d name k arr (append_to n xs m),
        sum-named d name k arr m,
        sum-append_to d name n xs m,
      ))
]

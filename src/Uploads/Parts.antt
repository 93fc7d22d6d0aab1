-- ===== src/Uploads/Parts.antt =====
-- Sets of chunk numbers as lists without duplicates: a set of n numbers below n has all of them.
use Prim.Native.Nat.{zero, suc}
use komari_agent.Shared.{
  ℕ, ◌≤◌, ◌<◌, ◌≡◌, refl, ◌⊎◌, inl, inr, Bool, Bool-cases, true, false, not, ◌&&◌, List, [], ◌∷◌,
  arith, ◌==◌, ltb, if◌then◌else◌, all, length,
}
use komari_agent.Uploads.Chunks.{contains, add_part}

abbrev pub is_set : List ℕ → Bool
is_set [] = true
is_set (x ∷ xs) = not (contains x xs) && is_set xs

-- A number less.
abbrev without : ℕ → List ℕ → List ℕ
without n [] = []
without n (x ∷ xs) = if x == n then without n xs else x ∷ without n xs

abbrev pub all_below : ℕ → List ℕ → Bool
all_below n xs = all (λ m. ltb m n) xs

contains-without :
    (n m : ℕ) (xs : List ℕ) → contains m xs ≡ false → contains m (without n xs) ≡ false
contains-without n m [] h = refl
contains-without n m (x ∷ xs) h = ground (arith, contains-without n m xs)

is_set-without : (n : ℕ) (xs : List ℕ) → is_set xs ≡ true → is_set (without n xs) ≡ true
is_set-without n [] h = refl
is_set-without n (x ∷ xs) h = ground (arith, is_set-without n xs, contains-without n x xs)

all_below-without :
    (n : ℕ) (xs : List ℕ) → all_below (suc n) xs ≡ true → all_below n (without n xs) ≡ true
all_below-without n [] h = refl
all_below-without n (x ∷ xs) h = ground (arith, all_below-without n xs)

without_absent : (n : ℕ) (xs : List ℕ) → contains n xs ≡ false → without n xs ≡ xs
without_absent n [] h = refl
without_absent n (x ∷ xs) h = ground (arith, without_absent n xs)

length-without : (n : ℕ) (xs : List ℕ) → is_set xs ≡ true → length xs ≤ suc (length (without n xs))
length-without n [] h = omega arith
length-without n (x ∷ xs) h = ground (arith, length-without n xs, without_absent n xs)

length-is_set : (n : ℕ) (xs : List ℕ) → is_set xs ≡ true → all_below n xs ≡ true → length xs ≤ n
length-is_set zero [] s b = omega arith
length-is_set zero (x ∷ xs) s b = ground arith
length-is_set (suc n) xs s b = omega (
  arith,
  length-without n xs s,
  length-is_set n (without n xs) (is_set-without n xs s) (all_below-without n xs b),
)

-- None is missing from a set of n numbers below n.
pub contains_all :
    (n i : ℕ) (xs : List ℕ)
    → is_set xs ≡ true
    → all_below n xs ≡ true
    → length xs ≡ n
    → i < n
    → contains i xs ≡ true
contains_all n i xs s b e h = elim (Bool-cases (contains i xs)) [
  | inl found ↦ found
  | inr missing ↦ absurd (omega (arith, e, length-is_set n (i ∷ xs) (ground arith) (ground arith)))
]

pub is_set-add_part : (n : ℕ) (xs : List ℕ) → is_set xs ≡ true → is_set (add_part n xs) ≡ true
is_set-add_part n xs h = ground arith

pub all_below-add_part :
    (n m : ℕ) (xs : List ℕ) → n < m → all_below m xs ≡ true → all_below m (add_part n xs) ≡ true
all_below-add_part n m xs h b = ground arith

pub contains-add_part :
    (n m : ℕ) (xs : List ℕ) → contains m (add_part n xs) ≡ true → (m ≡ n) ⊎ (contains m xs ≡ true)
contains-add_part n m xs h = ground arith

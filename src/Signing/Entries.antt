-- ===== src/Signing/Entries.antt =====
-- The entries of the record of nonces (core/signing/replay.go) under insertion and pruning.
use komari_agent.Shared.{
  ℕ, zero, suc, ◌+◌, ◌≤◌, ◌<◌, ◌≡◌, refl, not, none, some, [], ◌∷◌, String, arith, ltb, length,
  length-keep,
}
use komari_agent.Shared.Maps.{Dict, lookup, insert, erase}
use komari_agent.Signing.Replay.{drop_expired, evict, prune}

pub length-insert : (k : String) (v : ℕ) (m : Dict ℕ) → length (insert k v m) ≤ length m + 1
length-insert k v [] = omega arith
length-insert k v (e ∷ m) = ground (arith, length-insert k v m)

pub length-erase : (k : String) (m : Dict ℕ) → length (erase k m) ≤ length m
length-erase k [] = omega arith
length-erase k (e ∷ m) = ground (arith, length-erase k m)

-- An entry that has not expired stays.
pub lookup-drop_expired :
    (now : ℕ) (k : String) {e : ℕ} (m : Dict ℕ)
    → lookup k m ≡ some e
    → now ≤ e
    → lookup k (drop_expired now m) ≡ some e
unfolding drop_expired
lookup-drop_expired now k [] h le = h
lookup-drop_expired now k {e} ((j, x) ∷ m) h le =
    ground (arith, lookup-drop_expired now k {e = e} m)

pub lookup-drop_expired-none :
    (now : ℕ) (k : String) (m : Dict ℕ) → lookup k m ≡ none → lookup k (drop_expired now m) ≡ none
unfolding drop_expired
lookup-drop_expired-none now k [] h = h
lookup-drop_expired-none now k ((j, x) ∷ m) h = ground (arith, lookup-drop_expired-none now k m)

-- An entry that was entered afresh and has expired is gone.
pub lookup-drop_expired-insert :
    (now : ℕ) (k : String) (e : ℕ) (m : Dict ℕ)
    → lookup k m ≡ none
    → e < now
    → lookup k (drop_expired now (insert k e m)) ≡ none
unfolding drop_expired
lookup-drop_expired-insert now k e [] h lt = ground arith
lookup-drop_expired-insert now k e ((j, x) ∷ m) h lt =
    ground (arith, lookup-drop_expired-insert now k e m)

pub length-drop_expired : (now : ℕ) (m : Dict ℕ) → length (drop_expired now m) ≤ length m
unfolding drop_expired
length-drop_expired now m = length-keep (λ (e : String × ℕ). not (ltb e.1 now)) m

pub evict_small : (fuel : ℕ) (m : Dict ℕ) → length m ≤ 4096 → evict fuel m ≡ m
unfolding evict
evict_small zero m h = refl
evict_small (suc fuel) m h = ground arith

pub prune_small : (now : ℕ) (m : Dict ℕ) → length m ≤ 4096 → prune now m ≡ drop_expired now m
unfolding prune drop_expired
prune_small now m h =
    evict_small _ _ (omega (arith, length-keep (λ (e : String × ℕ). not (ltb e.1 now)) m))

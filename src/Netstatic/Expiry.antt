-- ===== src/Netstatic/Expiry.antt =====
-- What expires (`purgeExpiredLocked` of monitoring/netstatic/static.go).
use komari_agent.Shared.{
  ℕ, ◌≤◌, ◌<◌, ◌≡◌, refl, sym, ap, ◌∙◌, inl, inr, Bool, Bool-cases, true, false, List, [], ◌∷◌,
  ◌++◌, String, str_eq, arith, leb, if◌then◌else◌, Dict, keep, all,
}
use komari_agent.Netstatic.Model.{TrafficData, State, is_empty, unix}
use komari_agent.Netstatic.Counters.{cutoff_of, purge, purge_expired}
use komari_agent.Netstatic.Sums.{named}

-- The entries of at least an age.
abbrev pub since : ℕ → List TrafficData → List TrafficData
since cutoff arr = keep (λ td. leb cutoff td.timestamp) arr

since-append :
    (cutoff : ℕ) (xs ys : List TrafficData)
    → since cutoff (xs ++ ys) ≡ since cutoff xs ++ since cutoff ys
since-append cutoff [] ys = refl
since-append cutoff (x ∷ xs) ys = elim (Bool-cases (leb cutoff x.timestamp)) [
  | inl e ↦ rw e (ap (◌∷◌ x) (since-append cutoff xs ys))
  | inr e ↦ rw e (since-append cutoff xs ys)
]

is_empty-true : {A : Type 0} (xs : List A) → is_empty xs ≡ true → xs ≡ []
is_empty-true [] h = refl
is_empty-true (x ∷ xs) h = ground arith

named-cons :
    (name n : String) (arr : List TrafficData) (m : Dict (List TrafficData))
    → named name ((n, arr) ∷ m) ≡ (if str_eq n name then arr else []) ++ named name m
named-cons name n arr m = elim (Bool-cases (str_eq n name)) [
  | inl e ↦ rw e refl
  | inr e ↦ rw e refl
]

since-if :
    (cutoff : ℕ) (b : Bool) (arr : List TrafficData)
    → since cutoff (if b then arr else []) ≡ (if b then since cutoff arr else [])
since-if cutoff true arr = refl
since-if cutoff false arr = refl

if-empty : (b : Bool) (arr : List TrafficData) → arr ≡ [] → (if b then arr else []) ≡ []
if-empty b arr h = ground arith

pub purge-named :
    (cutoff : ℕ) (name : String) (m : Dict (List TrafficData))
    → named name (purge cutoff m) ≡ since cutoff (named name m)
unfolding purge
purge-named cutoff name [] = refl
purge-named cutoff name ((n, arr) ∷ m) = rw (named-cons name n arr m) (
    rw (since-append cutoff (if str_eq n name then arr else []) (named name m)) (
      rw (since-if cutoff (str_eq n name) arr) (elim (Bool-cases (is_empty (since cutoff arr))) [
        | inl e ↦
            rw (e, purge)
              (rw (if-empty (str_eq n name) (since cutoff arr) (is_empty-true (since cutoff arr) e))
                (purge-named cutoff name m))
        | inr e ↦
            rw (e, purge)
              (named-cons name n (since cutoff arr) (purge cutoff m)
                ∙ ap (λ rest. (if str_eq n name then since cutoff arr else []) ++ rest)
                    (purge-named cutoff name m))
      ])))

since-since : (a b : ℕ) (xs : List TrafficData) → a ≤ b → since b (since a xs) ≡ since b xs
since-since a b [] h = refl
since-since a b (x ∷ xs) h = elim (Bool-cases (leb a x.timestamp)) [
  | inl e ↦ rw e (elim (Bool-cases (leb b x.timestamp)) [
    | inl e' ↦ rw e' (ap (◌∷◌ x) (since-since a b xs h))
    | inr e' ↦ rw e' (since-since a b xs h)
  ])
  | inr e ↦ let e' : leb b x.timestamp ≡ false = ground arith in rw e (rw e' (since-since a b xs h))
]

-- Expiry keeps of each interface just the entries of the store that are not older than the cutoff,
-- in order; and expiring again, at a time whose cutoff is not earlier, keeps what expiring at that
-- time alone keeps.
pub purge_expired-named :
    (name : String) (now later : ℕ) (s : State)
    → cutoff_of now s.config.data_preserve ≤ cutoff_of later s.config.data_preserve
    → (named name (purge_expired now s).store.interfaces
        ≡ since (cutoff_of now s.config.data_preserve) (named name s.store.interfaces))
      × (named name (purge_expired later (purge_expired now s)).store.interfaces
          ≡ named name (purge_expired later s).store.interfaces)
unfolding purge_expired
purge_expired-named name now later s h =
    let c = cutoff_of now s.config.data_preserve in
    let c' = cutoff_of later s.config.data_preserve in
    (
      purge-named c name s.store.interfaces,
      purge-named c' name (purge c s.store.interfaces)
          ∙ ap (since c') (purge-named c name s.store.interfaces)
          ∙ since-since c c' (named name s.store.interfaces) h
          ∙ sym (purge-named c' name s.store.interfaces),
    )

since-none :
    (cutoff now : ℕ) (xs : List TrafficData)
    → now < cutoff
    → all (λ td. leb td.timestamp now) xs ≡ true
    → since cutoff xs ≡ []
since-none cutoff now [] h k = refl
since-none cutoff now (x ∷ xs) h k = ground (arith, since-none cutoff now xs h)

cutoff_of-wraps :
    (now ttl : ℕ) → now < ttl → ttl < 9223372036854775808 → unix now < cutoff_of now ttl
unfolding cutoff_of
cutoff_of-wraps now ttl h k = ground arith

-- A retention that is longer than the time since 1970 makes the cutoff wrap around: every entry of
-- an interface that has no timestamp in the future expires, where none should.
pub purge_expired-wraps :
    (name : String) (now : ℕ) (s : State)
    → now < s.config.data_preserve
    → s.config.data_preserve < 9223372036854775808
    → all (λ td. leb td.timestamp (unix now)) (named name s.store.interfaces) ≡ true
    → named name (purge_expired now s).store.interfaces ≡ []
unfolding purge_expired
purge_expired-wraps name now s h k past =
    purge-named (cutoff_of now s.config.data_preserve) name s.store.interfaces
    ∙ since-none (cutoff_of now s.config.data_preserve) (unix now) (named name s.store.interfaces)
        (cutoff_of-wraps now s.config.data_preserve h k) past

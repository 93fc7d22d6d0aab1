-- ===== src/Credentials/Threshold.antt =====
-- How many pinned keys stand behind a response that is accepted (core/enrollment/refresh_v2.go).
use mathlib.Core.List.{Memᴰ}
use komari_agent.Shared.{
  str_eq, eq_iff, ◌<◌, ◌⊎◌, none, ℕ, ◌≤◌, ◌≡◌, refl, inl, inr, Bool-cases, Option-cases, true,
  false, some, List, [], ◌∷◌, arith, String, ◌==◌, length, max, sym, subst,
}
use komari_agent.Shared.Results.{ok, Result-cases, ok-injective}
use komari_agent.Shared.Texts.{contains}
use komari_agent.Signing.Verify.{PinnedKey, Signature, Envelope, Crypto, ed25519}
use komari_agent.Credentials.Model.{Identity}
use komari_agent.Credentials.Pins.{
  is_usable, accepts, find_pin, matching_pin, add_value, collect, verify_pinned_envelope,
}

-- The pin is an Ed25519 key that is valid now, for the key that the signature names (or for any), and
-- the signature was made over the payload with it.
abbrev pub IsAccepted : Crypto → ℕ → String → Signature → PinnedKey → Type 0
IsAccepted crypto now payload s pin =
    (pin.algorithm ≡ 1)
    × ((pin.key_id ≡ "") ⊎ (s.key_id ≡ pin.key_id))
    × (pin.not_before ≤ now)
    × ((pin.not_after ≡ none) ⊎ ((t : ℕ) × (pin.not_after ≡ some t) × (now < t)))
    × ((raw : List ℕ) × (crypto.decode_base64 pin.value ≡ some raw)
        × (length raw ≡ 32)
        × (crypto.verify_ed25519 raw payload s.value ≡ true))

is_usable-eq_true :
    (now : ℕ) (s : Signature) (pin : PinnedKey)
    → is_usable now s pin ≡ true
    → (pin.algorithm ≡ 1)
      × ((pin.key_id ≡ "") ⊎ (s.key_id ≡ pin.key_id))
      × (pin.not_before ≤ now)
      × ((pin.not_after ≡ none) ⊎ ((t : ℕ) × (pin.not_after ≡ some t) × (now < t)))
unfolding is_usable
is_usable-eq_true now s pin h = (
  ground (arith, h),
  elim (Bool-cases (str_eq pin.key_id "")) [
    | inl e ↦ inl ((eq_iff pin.key_id "").0 e)
    | inr e ↦ inr ((eq_iff s.key_id pin.key_id).0 (ground (arith, h, e)))
  ],
  ground (arith, h),
  elim (Option-cases pin.not_after) [
    | inl e ↦ inl e
    | inr (t, e) ↦ inr (t, e, ground (arith, h, e))
  ],
)

accepts-IsAccepted :
    (crypto : Crypto) (now : ℕ) (payload : String) (s : Signature) (pin : PinnedKey)
    → accepts crypto now payload s pin ≡ true
    → IsAccepted crypto now payload s pin
unfolding accepts
accepts-IsAccepted crypto now payload s pin h =
    let (algorithm, key, started, unexpired) = is_usable-eq_true now s pin (ground (arith, h)) in
    (
      algorithm,
      key,
      started,
      unexpired,
      elim (Option-cases (crypto.decode_base64 pin.value)) [
        | inl e ↦ ground (arith, h, e)
        | inr (raw, e) ↦ (raw, e, ground (arith, h, e), ground (arith, h, e))
      ],
    )

-- The key with this value is pinned, and accepts one of the signatures.
pub record IsVouched (crypto : Crypto) (now : ℕ) (i : Identity) (payload : String)
    (signatures : List Signature) (value : String) : Type 0 where
  pub pin : PinnedKey
  pub signature : Signature
  pub pinned : Memᴰ pin i.control_plane_keys
  pub signed : Memᴰ signature signatures
  pub of_value : pin.value ≡ value
  pub accepted : IsAccepted crypto now payload signature pin

-- Distinct values, each of a key that vouches.
abbrev pub AllVouched : Crypto → ℕ → Identity → String → List Signature → List String → Type 0
AllVouched crypto now i payload signatures [] = Unit {0}
AllVouched crypto now i payload signatures (v ∷ vs) =
    (contains vs v ≡ false)
    × IsVouched crypto now i payload signatures v
    × AllVouched crypto now i payload signatures vs

module _ (crypto : Crypto) (now : ℕ) (payload : String) where
  find_pin-accepts :
      (s : Signature) (pins : List PinnedKey) {pin : PinnedKey}
      → find_pin crypto now payload s pins ≡ some pin
      → Memᴰ pin pins × (accepts crypto now payload s pin ≡ true)
  unfolding find_pin
  find_pin-accepts s [] h = ground arith
  find_pin-accepts s (p ∷ pins) {pin} h = elim (Bool-cases (accepts crypto now payload s p)) [
    | inl e ↦
        let same : p ≡ pin = ground (arith, e, h) in
        (Memᴰ.head (sym same), subst (λ q. accepts crypto now payload s q ≡ true) same e)
    | inr e ↦ let (m, a) = find_pin-accepts s pins (rw e at h) in (Memᴰ.tail m, a)
  ]

  module _ (i : Identity) (all : List Signature) where
    add_value-vouched :
        (v : String) (vs : List String)
        → IsVouched crypto now i payload all v
        → AllVouched crypto now i payload all vs
        → AllVouched crypto now i payload all (add_value v vs)
    add_value-vouched v vs new old = elim (Bool-cases (contains vs v)) [
      | inl e ↦ rw e old
      | inr e ↦ rw e (e, new, old)
    ]

    matching_pin-IsVouched :
        (s : Signature) {pin : PinnedKey}
        → Memᴰ s all
        → matching_pin crypto now payload s i.control_plane_keys ≡ some pin
        → IsVouched crypto now i payload all pin.value
    matching_pin-IsVouched s {pin} m h = elim (Bool-cases (s.algorithm == ed25519)) [
      | inl e ↦
          let (k, a) = find_pin-accepts s i.control_plane_keys (rw e at h) in
          record {
            pin = pin;
            signature = s;
            pinned = k;
            signed = m;
            of_value = refl;
            accepted = accepts-IsAccepted crypto now payload s pin a;
          }
      | inr e ↦ cc (rw e at h)
    ]

    collect-vouched :
        (rest : List Signature) (old : List String) {new : List String}
        → ((s : Signature) → Memᴰ s rest → Memᴰ s all)
        → AllVouched crypto now i payload all old
        → collect crypto now i payload rest old ≡ ok new
        → AllVouched crypto now i payload all new
    unfolding collect find_pin
    collect-vouched [] old inside vouched h =
        subst (AllVouched crypto now i payload all) (ok-injective h) vouched
    collect-vouched (s ∷ rest) old inside vouched h =
        elim (Option-cases (matching_pin crypto now payload s i.control_plane_keys)) [
          | inl e ↦ elim (Bool-cases i.policy_require_all) [
            | inl strict ↦ cc (rw (collect, e, strict) at h)
            | inr lax ↦
                collect-vouched rest old (λ t m. inside t (Memᴰ.tail m)) vouched
                  (rw (collect, e, lax) at h)
          ]
          | inr (pin, e) ↦
              collect-vouched rest (add_value pin.value old) (λ t m. inside t (Memᴰ.tail m))
                (add_value-vouched pin.value old
                  (matching_pin-IsVouched s (inside s (Memᴰ.head refl)) e) vouched)
                (rw (collect, e) at h)
        ]

-- A response is accepted only where enough distinct keys stand behind it: there are at least as many
-- distinct values as the policy asks for, and at least one, each of them the value of a pinned key
-- that is valid now and whose signature of the payload the envelope holds.
pub verify_pinned_envelope-vouched :
    (crypto : Crypto) (now : ℕ) (e : Envelope) (i : Identity)
    → verify_pinned_envelope crypto now e i ≡ ok tt
    → (values : List String) × AllVouched crypto now i e.payload e.signatures values
      × (max 1 i.policy_minimum_signatures ≤ length values)
unfolding verify_pinned_envelope
verify_pinned_envelope-vouched crypto now e i h =
    elim (Result-cases (collect crypto now i e.payload e.signatures [])) [
      | inl (values, c) ↦ (
        values,
        collect-vouched crypto now e.payload i e.signatures e.signatures [] (λ s m. m) tt c,
        ground (arith, rw c at h),
      )
      | inr (x, c) ↦ ground (arith, rw c at h)
    ]

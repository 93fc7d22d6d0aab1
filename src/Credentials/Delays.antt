-- ===== src/Credentials/Delays.antt =====
-- When the renewal loop wakes up and how long it waits (clientcore/credential_renewal.go).
use komari_agent.Shared.{
  ℕ, ◌+◌, ◌*◌, ◌%◌, ◌≤◌, ◌<◌, ◌≡◌, refl, inl, inr, Bool, Bool-cases, true, false, not, ◌&&◌, ◌||◌,
  is_some, Option, none, some, List, [], ◌∷◌, arith, String, str_eq, ◌==◌, leb, min, all,
}
use komari_agent.Credentials.Model.{CredentialError, Identity}
use komari_agent.Credentials.Rotation.{is_permanent_rejection}
use komari_agent.Credentials.Schedule.{
  longest_duration, credential_renewal_delay, after_attempt, waits,
}

-- Whether both tokens end together, so that an early renewal gains nothing.
abbrev pub is_capped : Identity → Bool
is_capped i =
    not (i.refresh_token_expires_at == 0)
    && leb i.refresh_token_expires_at i.access_token_expires_at

-- Where the identity has an access token and no pending request, the refresh token outlives the
-- access token (or has no expiry), and the last six minutes before the expiry of the access token have
-- not begun, the loop wakes up within the minute that ends five minutes before the expiry. The clock and the expiry
-- are less than the longest duration apart.
pub renewal_in_time :
    (prefix : String → ℕ) (i : Identity) (now : ℕ)
    → is_some i.pending_refresh ≡ false
    → str_eq i.access_token "" ≡ false
    → now + 360000000000 ≤ i.access_token_expires_at
    → i.access_token_expires_at < now + longest_duration
    → is_capped i ≡ false
    → (now + credential_renewal_delay prefix i now + 300000000000 ≤ i.access_token_expires_at)
      × (i.access_token_expires_at < now + credential_renewal_delay prefix i now + 360000000000)
unfolding credential_renewal_delay
renewal_in_time prefix i now p a early small c =
    let jitter : prefix i.agent_id % 60 < 60 = omega arith in
    rw (credential_renewal_delay, p, a) (ground (arith, jitter, c), ground (arith, jitter, c))

-- The waits between the attempts of the loop: nothing after a success, else five seconds to a minute.
pub waits_bounded :
    (outcomes : List (Option CredentialError)) (backoff : ℕ)
    → 5000000000 ≤ backoff
    → backoff ≤ 60000000000
    → all (λ n. n == 0 || (leb 5000000000 n && leb n 60000000000)) (waits outcomes backoff) ≡ true
unfolding waits after_attempt
waits_bounded [] backoff l u = refl
waits_bounded (none ∷ outcomes) backoff l u =
    waits_bounded outcomes 5000000000 (omega arith) (omega arith)
waits_bounded (some e ∷ outcomes) backoff l u = elim (Bool-cases (is_permanent_rejection e)) [
  | inl p ↦ rw (waits, after_attempt, p) refl
  | inr p ↦
      let rest =
        waits_bounded outcomes (min 60000000000 (backoff * 2)) (omega (arith, l)) (omega arith) in
      rw (waits, after_attempt, p) (ground (arith, rest, l, u))
]

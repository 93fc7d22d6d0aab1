-- ===== src/Retry/Delays.antt =====
-- What clientcore/retry.go guarantees of its delays.
use Prim.Native.Nat.{zero, suc}
use komari_agent.Shared.{
  ℕ, ◌+◌, ◌-◌, ◌*◌, ◌/◌, ◌%◌, ◌≤◌, ◌<◌, ◌≡◌, refl, ◌⊎◌, inl, inr, true, Bool-cases, Option-cases,
  none, some, arith, leb, max, min,
}
use komari_agent.Shared.Int.{ℤ, pos_part, int64}
use komari_agent.Retry.Policy.{
  one_second, retry_max_delay, retry_auth_min_delay, retry_auth_max_delay, retry_server_hint_cap,
  Failure, plain_error, connect_error, missing, unreadable, seconds, until, base_interval, escalate,
  backoff_delay, jitter, clamp_hint, retry_after_hint, is_auth_rejection, failure_delay, next,
}

-- A number doubled a number of times.
abbrev pub doubled : ℕ → ℕ → ℕ
doubled zero d = d
doubled (suc n) d = doubled n (d * 2)

le-doubled : (n d : ℕ) → d ≤ doubled n d
le-doubled zero d = omega arith
le-doubled (suc n) d = omega (arith, le-doubled n (d * 2))

escalate-min :
    (n limit delay : ℕ) → limit % 2 ≡ 0 → escalate n limit delay ≡ min limit (doubled n delay)
unfolding escalate
escalate-min zero limit delay even = ground arith
escalate-min (suc n) limit delay even =
    ground (arith, escalate-min n limit (delay * 2) even, le-doubled n (delay * 2))

-- For an even limit that is at least a positive base, the delay of the n-th attempt is the base
-- doubled n - 1 times, and at most the limit.
pub backoff_delay_lem :
    (base limit n : ℕ)
    → 0 < base
    → base ≤ limit
    → limit % 2 ≡ 0
    → backoff_delay base limit (suc n) ≡ min limit (doubled n base)
unfolding backoff_delay
backoff_delay_lem base limit n positive le even = ground (arith, escalate-min n limit base even)

escalate-bounds :
    (n limit delay : ℕ)
    → delay ≤ limit
    → (delay ≤ escalate n limit delay) × (escalate n limit delay ≤ limit)
unfolding escalate
escalate-bounds zero limit delay h = ground arith
escalate-bounds (suc n) limit delay h = elim (Bool-cases (leb (limit / 2) delay)) [
  | inl e ↦ rw e (h, omega arith)
  | inr e ↦
      let (a, b) = escalate-bounds n limit (delay * 2) (ground arith) in rw e (omega (arith, a), b)
]

backoff_delay-bounds :
    (base limit attempt : ℕ)
    → 0 < base
    → (base ≤ backoff_delay base limit attempt)
      × (backoff_delay base limit attempt ≤ max base limit)
unfolding backoff_delay
backoff_delay-bounds base limit attempt h =
    ground
      (arith, escalate-bounds (attempt - 1) limit base, escalate-bounds (attempt - 1) base base)

base_interval-bounds : (reconnect : ℕ) → one_second ≤ base_interval reconnect
unfolding base_interval
base_interval-bounds reconnect = omega arith

clamp_hint-bounds :
    (base : ℕ) (d : ℤ) → (base ≤ clamp_hint base d) ⊎ (clamp_hint base d ≡ retry_server_hint_cap)
unfolding clamp_hint
clamp_hint-bounds base d = ground arith

clamp_hint-cap : (base : ℕ) (d : ℤ) → clamp_hint base d ≤ max base retry_server_hint_cap
unfolding clamp_hint
clamp_hint-cap base d = ground arith

retry_after_hint-cap :
    (base : ℕ) (e : Failure) {hint : ℕ}
    → retry_after_hint base e ≡ some hint
    → hint ≤ max base retry_server_hint_cap
unfolding retry_after_hint
retry_after_hint-cap base plain_error h = ground arith
retry_after_hint-cap base (connect_error _ missing) h = ground arith
retry_after_hint-cap base (connect_error _ unreadable) h = ground arith
retry_after_hint-cap base (connect_error _ (seconds n)) h =
    ground (arith, clamp_hint-cap base (int64 (pos_part n * one_second)))
retry_after_hint-cap base (connect_error _ (until d)) h = ground (arith, clamp_hint-cap base d)

failure_delay-cap :
    (base : ℕ) (e : Failure) (attempt : ℕ)
    → 0 < base
    → failure_delay base e attempt ≤ max base retry_server_hint_cap
unfolding failure_delay
failure_delay-cap base e attempt h = elim (Option-cases (retry_after_hint base e)) [
  | inr (hint, r) ↦ rw (r, failure_delay) (retry_after_hint-cap base e r)
  | inl r ↦
      rw (r, failure_delay)
        (ground (
          arith,
          backoff_delay-bounds retry_auth_min_delay retry_auth_max_delay attempt (omega arith),
          backoff_delay-bounds base retry_max_delay attempt h,
        ))
]

failure_delay-auth :
    (base : ℕ) (e : Failure) (attempt : ℕ)
    → is_auth_rejection e ≡ true
    → retry_after_hint base e ≡ none
    → retry_auth_min_delay ≤ failure_delay base e attempt
unfolding failure_delay
failure_delay-auth base e attempt auth none_given =
    ground
      (arith, backoff_delay-bounds retry_auth_min_delay retry_auth_max_delay attempt (omega arith))

jitter-bounds :
    (reduction : ℕ → ℕ) (d : ℕ)
    → (one_second ≤ jitter reduction d)
      × (jitter reduction d ≤ max one_second d)
      × (d - reduction d ≤ jitter reduction d)
unfolding jitter
jitter-bounds reduction d = ground arith

-- The delay after a failure is at least one second, and at most the larger of the reconnect
-- interval and thirty minutes, whatever the failure, its Retry-After header, the number of attempts
-- and what the random number takes off.
pub next_bounds :
    (reconnect : ℕ) (reduction : ℕ → ℕ) (e : Failure) (attempt : ℕ)
    → (one_second ≤ (next reconnect reduction (some e) attempt).1)
      × ((next reconnect reduction (some e) attempt).1
          ≤ max (base_interval reconnect) retry_server_hint_cap)
unfolding next
next_bounds reconnect reduction e attempt =
    let base = base_interval reconnect in
    let positive = base_interval-bounds reconnect in
    let cap = failure_delay-cap base e (suc attempt) (omega (arith, positive)) in
    let j = jitter-bounds reduction (failure_delay base e (suc attempt)) in
    (j.0, omega (arith, j.1, cap))

-- A rejected credential whose rejection has no Retry-After hint is not presented again for at least
-- 48 seconds, when the random number takes off at most a fifth.
pub next-is_auth_rejection :
    (reconnect : ℕ) (reduction : ℕ → ℕ) (e : Failure) (attempt : ℕ)
    → ((d : ℕ) → reduction d ≤ d / 5)
    → is_auth_rejection e ≡ true
    → retry_after_hint (base_interval reconnect) e ≡ none
    → 48000000000 ≤ (next reconnect reduction (some e) attempt).1
unfolding next
next-is_auth_rejection reconnect reduction e attempt fifth auth none_given =
    let base = base_interval reconnect in
    let d = failure_delay base e (suc attempt) in
    let j = jitter-bounds reduction d in
    omega (arith, j.2, fifth d, failure_delay-auth base e (suc attempt) auth none_given)

-- The failures of one loop, each with its random reduction.
unfoldable pub fail_all : ℕ → (ℕ → ℕ) → ℕ → ℕ → ℕ
fail_all reconnect reduction zero attempt = attempt
fail_all reconnect reduction (suc n) attempt =
    fail_all reconnect reduction n (next reconnect reduction (some plain_error) attempt).0

fail_all-count :
    (reconnect : ℕ) (reduction : ℕ → ℕ) (n attempt : ℕ)
    → fail_all reconnect reduction n attempt ≡ n + attempt
unfolding fail_all next
fail_all-count reconnect reduction zero attempt = omega arith
fail_all-count reconnect reduction (suc n) attempt =
    omega (arith, fail_all-count reconnect reduction n (suc attempt))

plain_error-delay :
    (base n : ℕ)
    → one_second ≤ base
    → base ≤ retry_max_delay
    → failure_delay base plain_error (suc n) ≡ min retry_max_delay (doubled n base)
unfolding failure_delay retry_after_hint is_auth_rejection
plain_error-delay base n h le = backoff_delay_lem base retry_max_delay n (omega (arith, h)) le refl

jitter-nothing : (d : ℕ) → one_second ≤ d → jitter (λ _. 0) d ≡ d
unfolding jitter
jitter-nothing d h = ground arith

-- When a stream closes without an error the loop starts over: however many attempts there were,
-- and after n failures since, the next failure that is no rejection waits the reconnect interval
-- doubled n times, at most five minutes, if the random number takes nothing off and the interval is
-- itself at most five minutes.
pub next-after_close :
    (reconnect attempt n : ℕ)
    → base_interval reconnect ≤ retry_max_delay
    → (next reconnect
        (λ _. 0)
        (some plain_error)
        (fail_all reconnect (λ _. 0) n (next reconnect (λ _. 0) none attempt).0)).1
      ≡ min retry_max_delay (doubled n (base_interval reconnect))
unfolding next
next-after_close reconnect attempt n le =
    let base = base_interval reconnect in
    let bound = base_interval-bounds reconnect in
    let e = plain_error-delay base n bound le in
    let grown = le-doubled n base in
    rw (fail_all-count reconnect (λ _. 0) n 0) (
      rw (n_plus_zero n) (
        rw e (jitter-nothing (min retry_max_delay (doubled n base)) (omega (arith, bound, grown)))))
  where
    n_plus_zero : (n : ℕ) → n + 0 ≡ n
    n_plus_zero n = omega arith

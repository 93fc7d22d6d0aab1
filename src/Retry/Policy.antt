-- ===== src/Retry/Policy.antt =====
-- The delays of clientcore/retry.go, in nanoseconds. What `strconv`, `http.ParseTime` and the clock
-- make of a Retry-After header is part of the failure; what a random number takes off a delay is a
-- parameter.
use Prim.Native.Nat.{zero, suc}
use komari_agent.Shared.{
  ℕ, ◌-◌, ◌*◌, ◌/◌, Bool, true, false, ◌||◌, Option, none, some, ◌==◌, ltb, leb, if◌then◌else◌, max,
}
use komari_agent.Shared.Int.{ℤ, pos, pos_part, ltb_ℤ, int64}

abbrev pub one_second : ℕ
one_second = 1000000000

-- Five minutes.
abbrev pub retry_max_delay : ℕ
retry_max_delay = 300000000000

abbrev pub retry_auth_min_delay : ℕ
retry_auth_min_delay = 60000000000

-- Fifteen minutes.
abbrev pub retry_auth_max_delay : ℕ
retry_auth_max_delay = 900000000000

-- Thirty minutes.
abbrev pub retry_server_hint_cap : ℕ
retry_server_hint_cap = 1800000000000

-- The codes of a Connect error that the code tells apart.
pub data Code : Type 0 where
  unauthenticated permission_denied resource_exhausted other_code : Code

-- A Retry-After header: missing, a number of seconds, the time until a date, or neither.
pub data RetryAfter : Type 0 where
  missing unreadable : RetryAfter
  seconds until : ℤ → RetryAfter

-- An error, which may be none of Connect's.
pub data Failure : Type 0 where
  connect_error : Code → RetryAfter → Failure
  plain_error : Failure

-- `baseInterval`, for the flag's number of seconds, as far as their nanoseconds fit an `int64`.
unfoldable pub base_interval : ℕ → ℕ
base_interval reconnect = max reconnect 1 * one_second

-- The loop of `backoffDelay`, which runs `attempt - 1` times.
unfoldable pub escalate : ℕ → ℕ → ℕ → ℕ
escalate zero limit delay = if ltb limit delay then limit else delay
escalate (suc n) limit delay =
    let next = escalate n limit (delay * 2) in if leb (limit / 2) delay then limit else next

unfoldable pub backoff_delay : ℕ → ℕ → ℕ → ℕ
backoff_delay base limit attempt =
    let base' = if base == 0 then one_second else base in
    let limit' = if ltb limit base' then base' else limit in escalate (attempt - 1) limit' base'

-- `jitter`, where `reduction d` is `time.Duration(rand.Float64() * span)`.
unfoldable pub jitter : (ℕ → ℕ) → ℕ → ℕ
jitter reduction d =
    if d == 0
    then one_second
    else (let reduced = d - reduction d in if ltb reduced one_second then one_second else reduced)

unfoldable pub clamp_hint : ℕ → ℤ → ℕ
clamp_hint base d =
    if ltb_ℤ d (pos base)
    then base
    else if ltb_ℤ (pos retry_server_hint_cap) d
    then retry_server_hint_cap
    else pos_part d

-- A positive number of seconds, multiplied in 64 bits.
unfoldable pub retry_after_hint : ℕ → Failure → Option ℕ
retry_after_hint base plain_error = none
retry_after_hint base (connect_error _ missing) = none
retry_after_hint base (connect_error _ unreadable) = none
retry_after_hint base (connect_error _ (seconds n)) =
    if ltb_ℤ (pos 0) n then some (clamp_hint base (int64 (pos_part n * one_second))) else none
retry_after_hint base (connect_error _ (until d)) =
    if ltb_ℤ (pos 0) d then some (clamp_hint base d) else none

unfoldable pub is_auth_rejection : Failure → Bool
is_auth_rejection (connect_error unauthenticated _) = true
is_auth_rejection (connect_error permission_denied _) = true
is_auth_rejection _ = false

unfoldable pub is_rate_limited : Failure → Bool
is_rate_limited (connect_error resource_exhausted _) = true
is_rate_limited _ = false

unfoldable pub is_transient_rejection : Failure → Bool
is_transient_rejection e = is_rate_limited e || is_auth_rejection e

-- What `next` waits after a failure, before the jitter.
unfoldable pub failure_delay : ℕ → Failure → ℕ → ℕ
failure_delay base e attempt = elim (retry_after_hint base e) [
  | some hint ↦ hint
  | none ↦
      if is_auth_rejection e
      then backoff_delay retry_auth_min_delay retry_auth_max_delay attempt
      else backoff_delay base retry_max_delay attempt
]

-- `next`: the number of attempts afterwards, and the delay.
unfoldable pub next : ℕ → (ℕ → ℕ) → Option Failure → ℕ → ℕ × ℕ
next reconnect reduction none attempt = (0, jitter reduction (base_interval reconnect))
next reconnect reduction (some e) attempt =
    (suc attempt, jitter reduction (failure_delay (base_interval reconnect) e (suc attempt)))

unfoldable pub restart_delay : ℕ → (ℕ → ℕ) → ℤ → ℕ
restart_delay reconnect reduction attempt =
    let n = if ltb_ℤ attempt (pos 1) then 1 else pos_part attempt in
    jitter reduction (backoff_delay (base_interval reconnect) retry_max_delay n)

-- ===== src/Retry/Tests.antt =====
-- The theorems on the delays at concrete data.
use komari_agent.Shared.{ℕ, ◌/◌, ◌≤◌, ◌≡◌, refl, true, none, some, arith, max, min}
use komari_agent.Retry.Policy.{
  backoff_delay, one_second, retry_max_delay, retry_server_hint_cap, unauthenticated, missing,
  connect_error, base_interval, retry_after_hint, is_auth_rejection, next, Failure,
}
use komari_agent.Retry.Delays.{next_bounds, doubled, backoff_delay_lem}

abbrev fifth_part : ℕ → ℕ
fifth_part d = d / 5

fifth_part_le : (d : ℕ) → fifth_part d ≤ d / 5
fifth_part_le d = omega arith

abbrev rejected : Failure
rejected = connect_error unauthenticated missing

next_bounds_example :
    (one_second ≤ (next 5 fifth_part (some rejected) 2).1)
    × ((next 5 fifth_part (some rejected) 2).1 ≤ max (base_interval 5) retry_server_hint_cap)
next_bounds_example = next_bounds 5 fifth_part rejected 2

no_hint : retry_after_hint (base_interval 5) rejected ≡ none
unfolding retry_after_hint
no_hint = refl

is_rejected : is_auth_rejection rejected ≡ true
unfolding is_auth_rejection
is_rejected = refl

short_interval : base_interval 5 ≤ retry_max_delay
unfolding base_interval
short_interval = omega arith

backoff_delay_lem_example :
    backoff_delay 5000000000 300000000000 4 ≡ min 300000000000 (doubled 3 5000000000)
backoff_delay_lem_example =
    backoff_delay_lem 5000000000 300000000000 3 (omega arith) (omega arith) refl

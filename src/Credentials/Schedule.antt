-- ===== src/Credentials/Schedule.antt =====
-- When credentials are renewed: `credentialRenewalDelay` and the waits of `runCredentialRenewal` in
-- clientcore/credential_renewal.go. Times and durations are nanoseconds; a difference of times stops
-- at the longest duration, as `Sub` does.
use komari_agent.Shared.{
  ℕ, ◌-◌, ◌*◌, ◌%◌, ◌&&◌, ◌||◌, not, is_some, Option, none, some, List, [], ◌∷◌, String, str_eq,
  ◌==◌, leb, if◌then◌else◌, min,
}
use komari_agent.Credentials.Model.{CredentialError, Identity}
use komari_agent.Credentials.Rotation.{is_permanent_rejection}

abbrev pub hour : ℕ
hour = 3600000000000

abbrev pub longest_duration : ℕ
longest_duration = 9223372036854775807

-- `max(0, deadline.Sub(now))`
abbrev pub until : ℕ → ℕ → ℕ
until deadline now = min longest_duration (deadline - now)

-- Less than a minute; `prefix` is the number in the first two bytes of the digest of a text.
abbrev pub renewal_jitter : (String → ℕ) → Identity → ℕ
renewal_jitter prefix i = prefix i.agent_id % 60 * 1000000000

unfoldable pub credential_renewal_delay : (String → ℕ) → Identity → ℕ → ℕ
credential_renewal_delay prefix i now =
    if is_some i.pending_refresh || str_eq i.access_token ""
    then 0
    else if i.access_token_expires_at == 0
    then hour
    else if not (i.refresh_token_expires_at == 0)
        && leb i.refresh_token_expires_at i.access_token_expires_at
    then until i.refresh_token_expires_at now
    else until (i.access_token_expires_at - 300000000000 - renewal_jitter prefix i) now

abbrev pub first_backoff : ℕ
first_backoff = 5000000000

-- What the loop does after an attempt: the wait and the next backoff, or nothing where it stops.
unfoldable pub after_attempt : Option CredentialError → ℕ → Option (ℕ × ℕ)
after_attempt none backoff = some (0, first_backoff)
after_attempt (some e) backoff =
    if is_permanent_rejection e then none else some (backoff, min 60000000000 (backoff * 2))

-- The waits of the loop for the given outcomes, as long as it goes on.
unfoldable pub waits : List (Option CredentialError) → ℕ → List ℕ
waits [] backoff = []
waits (r ∷ outcomes) backoff = elim (after_attempt r backoff) [
  | none ↦ []
  | some (wait, next) ↦ wait ∷ waits outcomes next
]

-- ===== src/Tests/RateLimiter.antt =====
-- core/rate_limiter.py on concrete requests.
use myown_llm_gateway.Base.{ℕ, ◌+◌, ◌≤◌, ◌<◌, true, false, List, [], ◌∷◌, ◌≡◌, refl, ◌≢◌, ◌⊎◌}
use myown_llm_gateway.Core.RateLimiter.{
  Limits, no_key, answered, lost, check_rate_limit, check_rate_limit_status, pipeline, rollback,
  verdict, unmetered, zadd, zrem,
}
use myown_llm_gateway.Core.RateLimiter.Refinement.{Arrival, verdicts}
use myown_llm_gateway.Core.RateLimiter.Status.{check_rate_limit_status_quota}

-- Two requests a second.
abbrev limits : Limits
limits = record { requests = 2; window_seconds = 1; fail_open = false }

abbrev at : ℕ → ℕ → Arrival
at now token = record { now = now; token = token }

-- The third is rejected twice, and passes as soon as the first has left the window.
abbrev burst : List Arrival
burst = at 10 1 ∷ at 20 2 ∷ at 30 3 ∷ at 500000 4 ∷ at 1000010 5 ∷ at 1000011 6 ∷ []

verdicts-burst : verdicts limits burst no_key ≡ true ∷ true ∷ false ∷ false ∷ true ∷ false ∷ []
unfolding verdicts check_rate_limit check_rate_limit_status pipeline rollback verdict zadd zrem
verdicts-burst = refl

-- A Redis outage refuses the request, and leaves no quota.
outage : (check_rate_limit_status limits lost answered 10 1 no_key).0.allowed ≡ false
unfolding check_rate_limit_status unmetered
outage = refl

check_rate_limit_status_quota_example :
    let status = (check_rate_limit_status limits answered answered 10 1 no_key).0 in
    let count = (pipeline limits 10 1 no_key).1 in
    (status.remaining ≤ status.limit)
    × ((answered ≡ answered) × (status.allowed ≡ true) × (status.remaining + count ≡ 2)
        ⊎ (answered ≡ answered) × (status.allowed ≡ false) × (status.remaining ≡ 0) × (2 < count)
        ⊎ (answered ≢ answered)
          × (status.allowed ≡ false)
          × (status.remaining ≡ 0)
          × (false ≡ false)
        ⊎ (answered ≢ answered) × (status.allowed ≡ true) × (status.remaining ≡ 2) × (false ≡ true))
check_rate_limit_status_quota_example =
    check_rate_limit_status_quota limits answered answered 10 1 no_key

-- ===== src/Core/RateLimiter/Status.antt =====
-- src/llm_gateway/core/rate_limiter.py: the status of one check.
use myown_llm_gateway.Base.{ℕ, ◌+◌, ◌≤◌, ◌<◌, true, false, ◌≡◌, ◌≢◌, arith, ◌⊎◌}
use myown_llm_gateway.Core.RateLimiter.{
  Limits, SortedSet, Delivery, answered, lost, unanswered, pipeline, verdict, unmetered,
  check_rate_limit_status,
}

-- What clients read off a status, whatever Redis does. The remaining quota is at most the limit. A
-- grant by an answered check leaves the limit less the requests counted; a refusal leaves nothing,
-- and comes of a count above the limit or, with `fail_open` off, of a Redis failure; a grant
-- on a Redis failure needs `fail_open`, and then claims the whole limit.
pub check_rate_limit_status_quota :
    (s : Limits) (pipe undo : Delivery) (now token : ℕ) (z : SortedSet)
    → let status = (check_rate_limit_status s pipe undo now token z).0 in
      let count = (pipeline s now token z).1 in
      (status.remaining ≤ status.limit)
      × ((pipe ≡ answered) × (status.allowed ≡ true) × (status.remaining + count ≡ s.requests)
          ⊎ (pipe ≡ answered)
            × (status.allowed ≡ false)
            × (status.remaining ≡ 0)
            × (s.requests < count)
          ⊎ (pipe ≢ answered)
            × (status.allowed ≡ false)
            × (status.remaining ≡ 0)
            × (s.fail_open ≡ false)
          ⊎ (pipe ≢ answered)
            × (status.allowed ≡ true)
            × (status.remaining ≡ s.requests)
            × (s.fail_open ≡ true))
unfolding check_rate_limit_status verdict unmetered
check_rate_limit_status_quota s answered undo now token z = ground arith
check_rate_limit_status_quota s lost undo now token z = ground arith
check_rate_limit_status_quota s unanswered undo now token z = ground arith

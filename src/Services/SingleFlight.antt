-- ===== src/Services/SingleFlight.antt =====
-- src/llm_gateway/services/gateway.py: the state that requests share, with its table of requests in
-- flight, and what one request meets on its way.
use myown_llm_gateway.Base.{
  ℕ, ◌+◌, ◌-◌, ◌/◌, String, Option, none, some, List, [], ◌∷◌, ◌==◌, if◌then◌else◌,
}
use myown_llm_gateway.Base.Dict.{Dict, lookup}
use myown_llm_gateway.Core.Exceptions.{Result}
use myown_llm_gateway.Core.RateLimiter.{Delivery}
use myown_llm_gateway.Models.Api.{ChatResponse}
use myown_llm_gateway.Providers.Base.{BaseProvider}
use myown_llm_gateway.Services.Cache.{Redis, delete}
use myown_llm_gateway.Services.Cache.Waiting.{Round}
use myown_llm_gateway.Services.Usage.{Effects}

-- `_inflight` maps a cache key to a future, here its number; `futures` are those that have a
-- result or an exception.
pub record State (W : Type 0) : Type 0 where
  pub redis : Redis
  pub effects : Effects
  pub inflight : Dict ℕ
  pub futures : List (ℕ × Result ChatResponse)
  pub world : W

-- What one request meets: the readings of the clock, the fates of its commands, what it draws, and
-- what the others do at its awaits.
pub record Run (W : Type 0) : Type 0 where
  pub started : ℕ
  pub clock : ℕ → ℕ
  pub read : Delivery
  pub discarded : Delivery
  pub acquired : Delivery
  pub released : Delivery
  pub written : Delivery
  pub token : String
  pub future : ℕ
  pub rounds : ℕ → Round
  pub others : ℕ → State W → State W

-- `int((time.monotonic() - started) * 1000)`
abbrev pub latency_ms : ℕ → ℕ → ℕ
latency_ms started now = (now - started) / 1000

-- The result of a future, when it has one.
abbrev pub result_of : ℕ → List (ℕ × Result ChatResponse) → Option (Result ChatResponse)
result_of future [] = none
result_of future (f ∷ fs) = if f.0 == future then some f.1 else result_of future fs

-- `if _inflight.get(cache_key) is future: del _inflight[cache_key]`
unfoldable pub remove_own : String → ℕ → Dict ℕ → Dict ℕ
remove_own cache_key future inflight = elim (lookup cache_key inflight) [
  | none ↦ inflight
  | some f ↦ if f == future then delete cache_key inflight else inflight
]

abbrev sum_timeouts : {W : Type 0} → List (BaseProvider W) → ℕ
sum_timeouts [] = 0
sum_timeouts (p ∷ ps) = p.config.timeout + sum_timeouts ps

-- `lock_ttl_seconds`, in milliseconds
unfoldable pub lock_ttl_ms : {W : Type 0} → List (BaseProvider W) → ℕ
lock_ttl_ms providers = sum_timeouts providers + 5000

-- ===== src/Services/Gateway.antt =====
-- src/llm_gateway/services/gateway.py: one request, from the cache over the in-flight table and the
-- lock to the providers. The coroutine gives way at each `await`, where `others` is what the other
-- tasks and replicas do to the state. A task that is cancelled is not modelled.
pub mod InFlight
pub mod Billing
pub mod Repeat
pub mod Followers
pub mod Replicas
use myown_llm_gateway.Base.{
  ℕ, ◌+◌, ◌-◌, ◌/◌, String, Option, none, some, List, [], ◌∷◌, ◌==◌, if◌then◌else◌,
}
use myown_llm_gateway.Base.Dict.{Dict, lookup, insert}
use myown_llm_gateway.Core.Exceptions.{no_provider_available, Result, ok, raise}
use myown_llm_gateway.Core.RateLimiter.{Delivery}
use myown_llm_gateway.Models.Api.{ChatRequest, ChatResponse}
use myown_llm_gateway.Models.Provider.{free, pricing_for}
use myown_llm_gateway.Models.Usage.{UsageRecord}
use myown_llm_gateway.Providers.Base.{BaseProvider}
use myown_llm_gateway.Services.Cache.{
  Codec, Redis, delete, build_cache_key, get, set, acquire_lock, release_lock,
}
use myown_llm_gateway.Services.Cache.Waiting.{Round, wait_for_result}
use myown_llm_gateway.Services.Fallback.{execute_with_fallback}
use myown_llm_gateway.Services.Metrics.{build_usage_record}
use myown_llm_gateway.Services.Router.{select_providers}
use myown_llm_gateway.Services.SingleFlight.{
  State, Run, latency_ms, result_of, remove_own, lock_ttl_ms,
}
use myown_llm_gateway.Services.Usage.{Effects, record_served}

module _ {W : Type 0} where
  abbrev record_usage : UsageRecord → State W → State W
  record_usage r s = record s { effects = record_served r s.effects }

  -- `_record_cache_style_usage`, at a reading of the clock
  unfoldable pub record_cache_style_usage : ℕ → ChatResponse → ℕ → ℕ → State W → State W
  record_cache_style_usage virtual_key_id response started now s =
      record_usage
        (build_usage_record virtual_key_id "cache" free response.model response.usage
          (latency_ms started now))
        s

module _ {W : Type 0} (codec : Codec) (ttl_seconds : ℕ) (run : Run W) where
  abbrev served_from_cache : ℕ → ChatResponse → State W → Option (Result ChatResponse) × State W
  served_from_cache virtual_key_id response s = (
    some (ok response),
    record_cache_style_usage virtual_key_id response run.started (run.clock 9) s,
  )

  -- What a future gives to those that await it; `none` if it never has a result.
  unfoldable pub after_future :
      ℕ → Option (Result ChatResponse) → State W → Option (Result ChatResponse) × State W
  after_future virtual_key_id none s = (none, s)
  after_future virtual_key_id (some (raise e)) s = (some (raise e), s)
  after_future virtual_key_id (some (ok response)) s = served_from_cache virtual_key_id response s

  -- The follower of a request in flight awaits its future.
  unfoldable pub follow : ℕ → ℕ → State W → Option (Result ChatResponse) × State W
  unfolding after_future
  follow virtual_key_id future s =
      let s' = run.others 1 s in after_future virtual_key_id (result_of future s'.futures) s'

  -- The `finally` block.
  unfoldable pub clean_up : String → Option String → State W → State W
  clean_up cache_key none s = record s { inflight = remove_own cache_key run.future s.inflight }
  clean_up cache_key (some token) s = run.others 5 (record s {
    inflight = remove_own cache_key run.future s.inflight;
    redis = release_lock cache_key token run.released (run.clock 5) s.redis;
  })

  abbrev resolve : Result ChatResponse → State W → State W
  resolve result s = record s { futures = (run.future, result) ∷ s.futures }

  -- The statements from `future.set_result(response)` on.
  unfoldable pub finish :
      String → ChatRequest → ℕ → BaseProvider W → ChatResponse → State W → State W
  finish cache_key request virtual_key_id serving_provider response s =
      let resolved = resolve (ok response) s in
      let stored = run.others 6 (record resolved {
        redis = set codec ttl_seconds run.written cache_key response (run.clock 7) resolved.redis;
      }) in
      record_usage
        (build_usage_record virtual_key_id serving_provider.config.name
          (pricing_for serving_provider.config request.model) response.model response.usage
          (latency_ms run.started (run.clock 6)))
        stored

  -- The branches after the call of the providers.
  unfoldable pub conclude :
      String
      → ChatRequest
      → ℕ
      → Option String
      → Result (BaseProvider W × ChatResponse)
      → State W
      → Result ChatResponse × State W
  unfolding clean_up finish
  conclude cache_key request virtual_key_id lock_token (raise exc) s =
      (raise exc, clean_up cache_key lock_token (resolve (raise exc) s))
  conclude cache_key request virtual_key_id lock_token (ok (serving_provider, response)) s = (
    ok response,
    finish cache_key request virtual_key_id serving_provider response
        (clean_up cache_key lock_token s),
  )

  -- The leader registers its future and calls the providers.
  unfoldable pub lead :
      String
      → ChatRequest
      → ℕ
      → List (BaseProvider W)
      → Option String
      → State W
      → Result ChatResponse × State W
  unfolding conclude
  lead cache_key request virtual_key_id providers lock_token s =
      let registered =
        run.others 4 (record s { inflight = insert cache_key run.future s.inflight }) in
      let (result, world) = execute_with_fallback providers request registered.world in
      conclude cache_key request virtual_key_id lock_token result
        (record registered { world = world })

  abbrev pub ended : Result ChatResponse × State W → Option (Result ChatResponse) × State W
  ended r = (some r.0, r.1)

  -- The branches after the wait, which returns.
  unfoldable pub after_wait :
      String
      → ChatRequest
      → ℕ
      → List (BaseProvider W)
      → Option (Option ChatResponse)
      → State W
      → Option (Result ChatResponse) × State W
  unfolding lead
  after_wait cache_key request virtual_key_id providers (some (some response)) s =
      served_from_cache virtual_key_id response s
  after_wait cache_key request virtual_key_id providers (some none) s =
      ended (lead cache_key request virtual_key_id providers none s)
  after_wait cache_key request virtual_key_id providers none s = (none, s)

  -- Whoever does not get the lock waits for the result of another replica first.
  unfoldable pub wait_or_lead :
      String
      → ChatRequest
      → ℕ
      → List (BaseProvider W)
      → Option String
      → State W
      → Option (Result ChatResponse) × State W
  unfolding lead after_wait
  wait_or_lead cache_key request virtual_key_id providers (some token) s =
      ended (lead cache_key request virtual_key_id providers (some token) s)
  wait_or_lead cache_key request virtual_key_id providers none s =
      after_wait cache_key request virtual_key_id providers
        (wait_for_result codec (run.clock 3) run.rounds 41) (run.others 3 s)

  -- From `select_providers` on.
  unfoldable pub route :
      String
      → ChatRequest
      → ℕ
      → List (BaseProvider W)
      → State W
      → Option (Result ChatResponse) × State W
  unfolding wait_or_lead
  route cache_key request virtual_key_id [] s = (some (raise (no_provider_available [] none)), s)
  route cache_key request virtual_key_id (p ∷ ps) s =
      let (lock_token, redis) =
        acquire_lock cache_key run.token (lock_ttl_ms (p ∷ ps)) run.acquired (run.clock 2)
          s.redis in
      wait_or_lead cache_key request virtual_key_id (p ∷ ps) lock_token
        (run.others 2 (record s { redis = redis }))

  -- The branches after the look at the in-flight table.
  unfoldable pub join_or_route :
      String
      → ChatRequest
      → Dict (BaseProvider W)
      → ℕ
      → Option ℕ
      → State W
      → Option (Result ChatResponse) × State W
  unfolding follow route
  join_or_route cache_key request registry virtual_key_id (some future) s =
      follow virtual_key_id future s
  join_or_route cache_key request registry virtual_key_id none s =
      route cache_key request virtual_key_id (select_providers registry request.model) s

  -- The branches after the read of the cache.
  unfoldable pub after_cache :
      String
      → ChatRequest
      → Dict (BaseProvider W)
      → ℕ
      → Option ChatResponse
      → State W
      → Option (Result ChatResponse) × State W
  unfolding join_or_route
  after_cache cache_key request registry virtual_key_id (some cached) s =
      served_from_cache virtual_key_id cached s
  after_cache cache_key request registry virtual_key_id none s =
      join_or_route cache_key request registry virtual_key_id (lookup cache_key s.inflight) s

  unfoldable pub handle_chat_completion :
      (ChatRequest × Option ℕ → String)
      → ChatRequest
      → Dict (BaseProvider W)
      → ℕ
      → State W
      → Option (Result ChatResponse) × State W
  unfolding after_cache
  handle_chat_completion digest request registry virtual_key_id s =
      let cache_key = build_cache_key digest request (some virtual_key_id) in
      let (cached, redis, metrics) =
        get codec run.read run.discarded cache_key (run.clock 0) s.redis s.effects.metrics in
      after_cache cache_key request registry virtual_key_id cached (
        run.others 0 (record s { redis = redis; effects = record s.effects { metrics = metrics } }))

-- ===== src/Services/Gateway/Repeat.antt =====
-- src/llm_gateway/services/gateway.py: a request that repeats one before it.
use myown_llm_gateway.Base.{
  ℕ, ◌+◌, ◌<◌, String, Option, some, List, [], ◌∷◌, ◌++◌, ◌≡◌, refl, arith, ◌∙◌, ap,
}
use myown_llm_gateway.Base.Dict.{Dict}
use myown_llm_gateway.Core.Exceptions.{Result, ok, raise}
use myown_llm_gateway.Core.RateLimiter.{Delivery, answered}
use myown_llm_gateway.Models.Api.{ChatRequest, ChatResponse}
use myown_llm_gateway.Models.Provider.{free}
use myown_llm_gateway.Models.Usage.{UsageRecord}
use myown_llm_gateway.Providers.Base.{BaseProvider}
use myown_llm_gateway.Services.Cache.{Codec, Redis, seconds, build_cache_key, get, set}
use myown_llm_gateway.Services.Cache.Response.{get-set}
use myown_llm_gateway.Services.Metrics.{build_usage_record}
use myown_llm_gateway.Services.Prometheus.{Metrics, record_cache_event}
use myown_llm_gateway.Services.Usage.{persist, record_served, fire_and_forget}
use myown_llm_gateway.Services.SingleFlight.{State, Run, latency_ms}
use myown_llm_gateway.Services.Gateway.{
  record_cache_style_usage, clean_up, finish, conclude, lead, after_cache, handle_chat_completion,
}

-- A successful call leaves Redis as the write of its response does.
conclude-redis :
    {W : Type 0} (codec : Codec) (ttl : ℕ) (run : Run W) (cache_key : String)
    (request : ChatRequest) (key : ℕ) (lock_token : Option String)
    (result : Result (BaseProvider W × ChatResponse)) (s : State W) (v : ChatResponse)
    → ((s : State W) → run.others 6 s ≡ s)
    → (conclude codec ttl run cache_key request key lock_token result s).0 ≡ ok v
    → (r : Redis) × ((conclude codec ttl run cache_key request key lock_token result s).1.redis
        ≡ set codec ttl run.written cache_key v (run.clock 7) r)
unfolding conclude finish
conclude-redis codec ttl run cache_key request key lock_token (raise exc) s v quiet served =
    absurd (ground arith)
conclude-redis codec ttl run cache_key request key lock_token (ok (p, response)) s v quiet served =
    let same : response ≡ v = ground arith in
    let before = (clean_up codec ttl run cache_key lock_token s).redis in
    (
      before,
      ap (λ (s : State _). s.redis) (quiet _)
          ∙ ap (λ v. set codec ttl run.written cache_key v (run.clock 7) before) same,
    )

pub get-stored :
    (codec : Codec) (ttl now later : ℕ) (written read discarded : Delivery) (key : String)
    (v : ChatResponse) (redis r : Redis) (m : Metrics)
    → written ≡ answered
    → read ≡ answered
    → redis ≡ set codec ttl written key v now r
    → codec.decode (codec.encode v) ≡ some v
    → later < now + seconds ttl
    → get codec read discarded key later redis m ≡ (some v, redis, record_cache_event "hit" m)
get-stored codec ttl now later written read discarded key v redis r m w q stored reads fresh =
    rw stored (rw w (rw q (get-set codec ttl now later discarded key v r m reads fresh)))

-- A request that finds its response in the cache.
handle_chat_completion_hit :
    {W : Type 0} (codec : Codec) (ttl : ℕ) (run : Run W) (digest : ChatRequest × Option ℕ → String)
    (request : ChatRequest) (registry : Dict (BaseProvider W)) (key : ℕ) (t : State W)
    (v : ChatResponse) (r : Redis) (m : Metrics)
    → ((i : ℕ) (s : State W) → run.others i s ≡ s)
    → get codec run.read run.discarded
        (build_cache_key digest request (some key))
        (run.clock 0)
        t.redis
        t.effects.metrics
      ≡ (some v, r, m)
    → let second = handle_chat_completion codec ttl run digest request registry key t in
      (second.0 ≡ some (ok v))
      × (second.1.world ≡ t.world)
      × ((u : UsageRecord) × (u.estimated_cost ≡ 0)
          × (u.provider ≡ "cache")
          × (second.1.effects.pending ≡ t.effects.pending ++ persist u ∷ []))
unfolding handle_chat_completion after_cache record_cache_style_usage record_served fire_and_forget
    build_usage_record
handle_chat_completion_hit codec ttl run digest request registry key t v r m quiet found =
    rw found (
      refl,
      ap (λ (s : State _). s.world) (quiet 0 _),
      (u, omega arith, refl, ap (λ (s : State _). s.effects.pending ++ persist u ∷ []) (quiet 0 _)),
    )
  where
    u : UsageRecord
    u = build_usage_record key "cache" free v.model v.usage (latency_ms run.started (run.clock 9))

-- After a request that called the providers and got a response, which Redis stored, the same
-- request of the same key within the time to live gets this response: no provider is called, and
-- the row that it leaves has no cost. Nobody else writes in between, and pydantic reads back what
-- it wrote for the response.
pub handle_chat_completion_repeated :
    {W : Type 0} (codec : Codec) (ttl : ℕ) (run again : Run W)
    (digest : ChatRequest × Option ℕ → String) (request : ChatRequest)
    (registry : Dict (BaseProvider W)) (key : ℕ) (providers : List (BaseProvider W))
    (lock_token : Option String) (s : State W) (v : ChatResponse)
    → ((i : ℕ) (s : State W) → run.others i s ≡ s)
    → ((i : ℕ) (s : State W) → again.others i s ≡ s)
    → run.written ≡ answered
    → again.read ≡ answered
    → codec.decode (codec.encode v) ≡ some v
    → again.clock 0 < run.clock 7 + seconds ttl
    → let first =
        lead codec ttl run
          (build_cache_key digest request (some key))
          request
          key
          providers
          lock_token
          s in
      first.0 ≡ ok v
      → let second = handle_chat_completion codec ttl again digest request registry key first.1 in
        (second.0 ≡ some (ok v))
        × (second.1.world ≡ first.1.world)
        × ((r : UsageRecord) × (r.estimated_cost ≡ 0)
            × (r.provider ≡ "cache")
            × (second.1.effects.pending ≡ first.1.effects.pending ++ persist r ∷ []))
unfolding lead
handle_chat_completion_repeated {W} codec ttl run again digest request registry key providers
      lock_token s v quiet quiet' written read reads fresh served =
    let (r, stored) =
      conclude-redis codec ttl run cache_key request key lock_token _ _ v (quiet 6) served in
    handle_chat_completion_hit codec ttl again digest request registry key served_state v
      served_state.redis (record_cache_event "hit" served_state.effects.metrics) quiet'
      (get-stored codec ttl (run.clock 7) (again.clock 0) run.written again.read again.discarded
        cache_key v served_state.redis r served_state.effects.metrics written read stored reads
        fresh)
  where
    cache_key : String
    cache_key = build_cache_key digest request (some key)

    served_state : State W
    served_state = (lead codec ttl run cache_key request key providers lock_token s).1

-- ===== src/Services/Cache/Response.antt =====
-- src/llm_gateway/services/cache.py: reads of the response cache after a write.
use myown_llm_gateway.Base.{ℕ, ◌+◌, ◌<◌, String, some, leb-false, ◌≡◌, arith, eq_refl}
use myown_llm_gateway.Base.Dict.{Dict, lookup-insert}
use myown_llm_gateway.Base.Text.{Text}
use myown_llm_gateway.Core.RateLimiter.{Delivery, answered}
use myown_llm_gateway.Models.Api.{ChatResponse}
use myown_llm_gateway.Services.Prometheus.{Metrics, record_cache_event}
use myown_llm_gateway.Services.Cache.{Codec, Redis, seconds, after_read, get, set}

after_read-hit :
    (codec : Codec) (d : Delivery) (key : String) (raw : Text) (v : ChatResponse) (r : Redis)
    (m : Metrics)
    → codec.decode raw ≡ some v
    → after_read codec d key (some raw) r m ≡ (some v, r, record_cache_event "hit" m)
unfolding after_read
after_read-hit codec d key raw v r m reads = ground arith

-- A response that was stored is returned until its time to live has passed, and counts as a hit,
-- if pydantic reads back what it wrote for it.
pub get-set :
    (codec : Codec) (ttl now later : ℕ) (discarded : Delivery) (key : String) (v : ChatResponse)
    (r : Redis) (m : Metrics)
    → codec.decode (codec.encode v) ≡ some v
    → later < now + seconds ttl
    → let r' = set codec ttl answered key v now r in
      get codec answered discarded key later r' m ≡ (some v, r', record_cache_event "hit" m)
unfolding get set
get-set codec ttl now later discarded key v r m reads fresh =
    rw (lookup-insert key key (codec.encode v, now + seconds ttl) r.responses) (
      rw (eq_refl key) (
        rw (leb-false (now + seconds ttl) later fresh)
          (after_read-hit codec discarded key (codec.encode v) v _ m reads)))

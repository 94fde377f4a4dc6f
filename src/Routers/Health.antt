-- ===== src/Routers/Health.antt =====
-- src/llm_gateway/routers/health.py and src/llm_gateway/storage/redis.py: the probes. What a probe
-- meets within its time limit is a value; the limit turns a longer wait into a `TimeoutError`.
use myown_llm_gateway.Base.{ℕ, Bool, true, false, ◌&&◌, if◌then◌else◌}
use myown_llm_gateway.Core.Exceptions.{Exception, Result, ok, raise, ◌>>=◌}

pub data Probe : Type 0 where
  answer : Bool → Probe
  redis_error os_error timeout_error : Probe
  other_error : Exception → Probe

-- `healthcheck` of storage/redis.py
unfoldable healthcheck : Probe → Result Bool
healthcheck (answer pong) = ok pong
healthcheck redis_error = ok false
healthcheck os_error = ok false
healthcheck timeout_error = ok false
healthcheck (other_error e) = raise e

-- `database_ok`: an answer counts, whatever it is
unfoldable database_ok : Probe → Bool
database_ok (answer row) = true
database_ok redis_error = false
database_ok os_error = false
database_ok timeout_error = false
database_ok (other_error e) = false

pub record Readiness : Type 0 where
  pub status_code : ℕ
  pub ready : Bool
  pub redis : Bool
  pub database : Bool

-- `readiness`; `status` is "ready" or "degraded"
unfoldable pub readiness : Probe → Probe → Result Readiness
unfolding healthcheck database_ok
readiness redis database = do
  redis_ok ← healthcheck redis
  let db_ok = database_ok database
  ok (record {
    status_code = if redis_ok && db_ok then 200 else 503;
    ready = redis_ok && db_ok;
    redis = redis_ok;
    database = db_ok;
  })

-- ===== src/Tests/Cache.antt =====
-- services/cache.py on concrete entries, locks and waits.
use Prim.Native.String.{String}
use myown_llm_gateway.Base.{
  ℕ, zero, suc, ◌+◌, ◌*◌, ◌≤◌, Option, none, some, List, [], ◌∷◌, ◌≡◌, refl, ◌≢◌, ap, arith,
}
use myown_llm_gateway.Base.Dict.{lookup}
use myown_llm_gateway.Core.RateLimiter.{answered, lost}
use myown_llm_gateway.Models.Api.{ChatRequest, ChatResponse}
use myown_llm_gateway.Services.Prometheus.{record_cache_event, no_metrics}
use myown_llm_gateway.Services.Cache.{Codec, Redis, get, set, acquire_lock, set_nx, seconds}
use myown_llm_gateway.Services.Cache.Lock.{
  LockOp, acquire, release, run_ops, NoGrant, acquire_lock_exclusive,
}
use myown_llm_gateway.Services.Cache.Response.{get-set}
use myown_llm_gateway.Services.Cache.Waiting.{
  Round, Answer, entry, wait_for_result, wait_loop, wait_timeout, Explains, wait_for_result_total,
}
use myown_llm_gateway.Tests.Samples.{size, response}

-- One response is written, as the empty text.
abbrev codec : Codec
codec = record { encode = λ v. []; decode = λ raw. some response }

abbrev empty_redis : Redis
empty_redis = record { responses = []; locks = [] }

get-set_example :
    let r' = set codec 300 answered "k" response 10 empty_redis in
    get codec answered lost "k" 20 r' no_metrics
    ≡ (some response, r', record_cache_event "hit" no_metrics)
get-set_example =
    get-set codec 300 10 20 lost "k" response empty_redis no_metrics refl (omega arith)

-- A digest that reads the namespace alone.
abbrev marks : ℕ → String
marks zero = ""
marks (suc n) = String.◌∷◌ "x" (marks n)

abbrev namespace_digest : ChatRequest × Option ℕ → String
namespace_digest (q, none) = ""
namespace_digest (q, some n) = marks (suc n)

abbrev decode_namespace : ℕ → Option ℕ
decode_namespace zero = none
decode_namespace (suc n) = some n

-- Another replica tries the lock, and releases it with its own token.
abbrev others : List LockOp
others = acquire "k" "theirs" 5000 answered 20 ∷ release "k" "theirs" answered 30 ∷ []

theirs_other : ◌≢◌ {A = String} "theirs" "mine"
theirs_other e = let sizes : ◌≡◌ {A = ℕ} 6 4 = ap size e in omega (arith, sizes)

acquire_lock_exclusive_example :
    let r' = (acquire_lock "k" "mine" 5000 answered 10 empty_redis).1 in
    NoGrant "k" others r' × (lookup "k" (run_ops others r').locks ≡ some ("mine", 10 + seconds 5))
acquire_lock_exclusive_example =
    acquire_lock_exclusive "k" "mine" 5000 10 answered others empty_redis
      (unfold acquire_lock set_nx in refl) ((omega arith, tt), ((omega arith, theirs_other), tt))

-- The entry is there at the third round.
abbrev rounds : ℕ → Round
rounds zero = record { clock = 100; answer = Answer.nothing }
rounds (suc zero) = record { clock = 50100; answer = Answer.nothing }
rounds (suc (suc n)) = record { clock = 100 + (n + 2) * 50000; answer = entry [] }

waited : wait_for_result codec 100 rounds 41 ≡ some (some response)
unfolding wait_for_result wait_loop
waited = refl

ticks : (j : ℕ) → (rounds j).clock + 50000 ≤ (rounds (suc j)).clock
ticks zero = omega arith
ticks (suc zero) = omega arith
ticks (suc (suc n)) = omega arith

wait_for_result_total_example :
    (r : Option ChatResponse) × (wait_for_result codec 100 rounds 41 ≡ some r)
    × Explains codec (100 + wait_timeout) rounds r
wait_for_result_total_example = wait_for_result_total codec 100 rounds (omega arith) ticks

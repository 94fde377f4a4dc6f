-- ===== src/Services/Cache.antt =====
-- src/llm_gateway/services/cache.py: responses and single-flight locks in Redis. Response keys and
-- lock keys (`lock:` and a response key) never meet, so they are two tables. Times are in
-- microseconds. What pydantic writes for a response and reads back is the record `Codec`.
pub mod Response
pub mod Lock
pub mod Waiting
use myown_llm_gateway.Base.{
  ℕ, ◌+◌, ◌*◌, ◌/◌, String, Bool, true, false, Option, none, some, List, [], ◌∷◌, leb, ltb, str_eq,
  if◌then◌else◌, is_none,
}
use myown_llm_gateway.Base.Dict.{Dict, lookup, insert}
use myown_llm_gateway.Base.Text.{Text}
use myown_llm_gateway.Core.RateLimiter.{Delivery, answered, lost, unanswered}
use myown_llm_gateway.Models.Api.{ChatRequest, ChatResponse}
use myown_llm_gateway.Services.Prometheus.{Metrics, record_cache_event}

-- `model_dump_json` and `model_validate_json`; the latter's `ValueError` is `none`
pub record Codec : Type 0 where
  pub encode : ChatResponse → Text
  pub decode : Text → Option ChatResponse

-- A value with the time at which Redis drops it.
pub record Redis : Type 0 where
  pub responses : Dict (Text × ℕ)
  pub locks : Dict (String × ℕ)

-- A value that has not expired.
abbrev pub live : {V : Type 0} → ℕ → Option (V × ℕ) → Option V
live now none = none
live now (some (v, expires_at)) = if leb expires_at now then none else some v

-- `DEL key`
abbrev pub delete : {V : Type 0} → String → Dict V → Dict V
delete key [] = []
delete key (e ∷ d) = let rest = delete key d in if str_eq key e.0 then rest else e ∷ rest

-- A command that changes the store runs unless it is lost on the way.
abbrev pub unless_lost : {A : Type 0} → Delivery → A → A → A
unless_lost lost before after = before
unless_lost answered before after = after
unless_lost unanswered before after = after

abbrev pub seconds : ℕ → ℕ
seconds n = n * 1000000

-- `build_cache_key`: the SHA-256 of the JSON of the request and the namespace, as `digest`
unfoldable pub build_cache_key : (ChatRequest × Option ℕ → String) → ChatRequest → Option ℕ → String
build_cache_key digest request namespace = digest (request, namespace)

-- `_parse_entry` with `record_event=True`
unfoldable parse_entry : Codec → Text → Metrics → Option ChatResponse × Metrics
parse_entry codec raw m = elim (codec.decode raw) [
  | some response ↦ (some response, m)
  | none ↦ (none, record_cache_event "error" m)
]

-- `_discard_entry`
unfoldable discard_entry : Delivery → String → Redis → Redis
discard_entry d key r = record r { responses = unless_lost d r.responses (delete key r.responses) }

-- The branches of `get` after the read: miss, hit, and an entry that does not parse.
unfoldable pub after_read :
    Codec
    → Delivery
    → String
    → Option Text
    → Redis
    → Metrics
    → Option ChatResponse × Redis × Metrics
unfolding parse_entry discard_entry
after_read codec discarded key none r m = (none, r, record_cache_event "miss" m)
after_read codec discarded key (some raw) r m =
    let (parsed, m') = parse_entry codec raw m in
    elim parsed [
      | none ↦ (none, discard_entry discarded key r, m')
      | some response ↦ (some response, r, record_cache_event "hit" m')
    ]

-- `get`, over the deliveries of its read and of the discard
unfoldable pub get :
    Codec
    → Delivery
    → Delivery
    → String
    → ℕ
    → Redis
    → Metrics
    → Option ChatResponse × Redis × Metrics
unfolding after_read
get codec answered discarded key now r m =
    after_read codec discarded key (live now (lookup key r.responses)) r m
get codec _ discarded key now r m = (none, r, record_cache_event "error" m)

-- `set`, with `CACHE_TTL_SECONDS`
unfoldable pub set : Codec → ℕ → Delivery → String → ChatResponse → ℕ → Redis → Redis
set codec ttl_seconds d key response now r = record r {
  responses =
      unless_lost d r.responses
        (insert key (codec.encode response, now + seconds ttl_seconds) r.responses);
}

-- `math.ceil` of a time in milliseconds to seconds
abbrev pub ceil_seconds : ℕ → ℕ
ceil_seconds ms = (ms + 999) / 1000

-- `SET lock token NX EX ttl`: does it set, and the locks after it
unfoldable pub set_nx : String → String → ℕ → ℕ → Dict (String × ℕ) → Bool × Dict (String × ℕ)
set_nx key token ttl_seconds now locks =
    if is_none (live now (lookup key locks))
    then (true, insert key (token, now + seconds ttl_seconds) locks)
    else (false, locks)

-- `acquire_lock`, with the token that it draws
unfoldable pub acquire_lock : String → String → ℕ → Delivery → ℕ → Redis → Option String × Redis
acquire_lock key token ttl_ms answered now r =
    let (done, locks) = set_nx key token (ceil_seconds ttl_ms) now r.locks in
    (if done then some token else none, record r { locks = locks })
acquire_lock key token ttl_ms lost now r = (none, r)
acquire_lock key token ttl_ms unanswered now r =
    (none, record r { locks = (set_nx key token (ceil_seconds ttl_ms) now r.locks).1 })

abbrev holds : String → Option String → Bool
holds token none = false
holds token (some held) = str_eq held token

-- `_RELEASE_LOCK_SCRIPT`
unfoldable pub compare_and_delete : String → String → ℕ → Dict (String × ℕ) → Dict (String × ℕ)
compare_and_delete key token now locks =
    if holds token (live now (lookup key locks)) then delete key locks else locks

-- `release_lock`
unfoldable pub release_lock : String → String → Delivery → ℕ → Redis → Redis
release_lock key token d now r = record r {
  locks = unless_lost d r.locks (compare_and_delete key token now r.locks);
}

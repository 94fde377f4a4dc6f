-- ===== src/Routers/Chat/Repeats.antt =====
-- src/llm_gateway/routers/chat.py: the two requests of a repetition, the one that misses the cache and
-- the one that finds the response.
use myown_llm_gateway.Base.{
  ℕ, String, true, Option, none, some, List, [], ◌∷◌, ◌++◌, ◌≡◌, refl, ap, ◌∙◌, map, arith,
}
use mathlib.Core.Path.{subst}
use myown_llm_gateway.Base.Dict.{Dict}
use myown_llm_gateway.Base.Text.{Text}
use myown_llm_gateway.Core.Exceptions.{ok}
use myown_llm_gateway.Models.Api.{ChatRequest, ChatResponse, Usage, no_usage}
use myown_llm_gateway.Models.Provider.{free}
use myown_llm_gateway.Models.Usage.{UsageRecord}
use myown_llm_gateway.Providers.Base.{BaseProvider}
use myown_llm_gateway.Services.Cache.{Codec, Redis, build_cache_key, get, set}
use myown_llm_gateway.Services.Metrics.{build_usage_record}
use myown_llm_gateway.Services.Prometheus.{Metrics}
use myown_llm_gateway.Services.SingleFlight.{State, Run, latency_ms}
use myown_llm_gateway.Services.Streaming.{stream_chat_completion, schedule_cached_stream_usage}
use myown_llm_gateway.Services.Streaming.Chunks.{ChunkAccumulator, no_chunks, to_response}
use myown_llm_gateway.Services.Streaming.Assembly.{feed_all, assemble, one_choice}
use myown_llm_gateway.Services.Streaming.Cached.{synthesize_cached_stream}
use myown_llm_gateway.Services.Streaming.Replay.{synthesize_cached_stream-assemble}
use myown_llm_gateway.Services.Streaming.Stored.{
  to_response-Built, to_response-created, content_of-bounded, id-named,
}
use myown_llm_gateway.Services.Usage.{persist, record_served, fire_and_forget}
use myown_llm_gateway.Routers.Chat.Stream.{
  relayed_line, Served, unserved, drain, settle, store, end_stream, replay_or_relay,
  stream_response, unix_time,
}

-- The lines of a stream whose accumulator was stored are assembled to the stored response.
pub assemble-stored :
    (lines : List Text) (a : ChunkAccumulator) (now later : ℕ) (r : ChatResponse)
    → feed_all lines no_chunks ≡ ok a
    → to_response now a ≡ ok r
    → assemble lines later ≡ ok (record r { created = later })
unfolding assemble
assemble-stored lines a now later r fed built = rw fed (to_response-created now later a r built)

-- The lines of a replay of a stored response.
abbrev AreReplay : ChatResponse → ℕ → ℕ → ℕ → ℕ → Type 0
AreReplay r t t' t'' later =
    (lines : List Text) × (synthesize_cached_stream r t t' t'' ≡ ok lines)
    × (assemble lines later ≡ ok (record r { created = later }))

stored-AreReplay :
    (a : ChunkAccumulator) (now t t' t'' later : ℕ) (r : ChatResponse)
    → to_response now a ≡ ok r
    → AreReplay r t t' t'' later
stored-AreReplay a now t t' t'' later r built =
    let b = to_response-Built now a r built in
    let whole = one_choice b.id b.model b.content b.reason a.usage now in
    let (lines, written, read, captured) =
      synthesize_cached_stream-assemble whole _ [] t t' t'' later no_usage refl
        (content_of-bounded a.content b.content b.content_built) in
    subst (λ (v : ChatResponse). AreReplay v t t' t'' later) b.whole
      (
        lines,
        written,
        read
            ∙ ap (λ id. ok (one_choice id b.model b.content b.reason a.usage later))
                (id-named a.id b.id b.id_built),
      )

module _ {W : Type 0} (codec : Codec) (ttl : ℕ) (run : Run W) (key : ℕ) where
  -- A regular end of the loop leaves Redis as the write of the response does.
  pub end_stream-redis :
      (context : Option String) (cache_key model : String) (lines : List Text) (served : Served W)
      (s : State W) (r : ChatResponse)
      → served.accumulator.saw_any_chunk ≡ true
      → to_response (unix_time (run.clock 7)) served.accumulator ≡ ok r
      → (redis : Redis) × ((end_stream codec ttl run context cache_key key model
            (lines, none, served)
            s).1.redis
          ≡ set codec ttl run.written cache_key r (run.clock 8) redis)
  unfolding end_stream store
  end_stream-redis context cache_key model lines served s r saw built = (
    (settle codec ttl run key model served.usage served.serving_provider s).redis,
    rw (built, saw),
  )

  settle-world :
      (model : String) (usage : Usage) (p : Option (BaseProvider W)) (s : State W)
      → (settle codec ttl run key model usage p s).world ≡ s.world
  unfolding settle
  settle-world model usage none s = refl
  settle-world model usage (some p) s = refl

  pub end_stream-body :
      (context : Option String) (cache_key model : String) (lines : List Text) (served : Served W)
      (s : State W) (r : ChatResponse)
      → served.accumulator.saw_any_chunk ≡ true
      → to_response (unix_time (run.clock 7)) served.accumulator ≡ ok r
      → let out = end_stream codec ttl run context cache_key key model (lines, none, served) s in
        (out.0 ≡ record { sent = map relayed_line lines; ending = none }) × (out.1.world ≡ s.world)
  unfolding end_stream store
  end_stream-body context cache_key model lines served s r saw built =
      rw (built, saw) (refl, settle-world model served.usage served.serving_provider s)

  -- A request that finds a response that was built from a stream.
  pub stream_response_hit :
      (digest : ChatRequest × Option ℕ → String) (context : Option String) (request : ChatRequest)
      (registry : Dict (BaseProvider W)) (t : State W) (a : ChunkAccumulator) (now : ℕ)
      (v : ChatResponse) (redis : Redis) (m : Metrics) (later : ℕ)
      → ((i : ℕ) (s : State W) → run.others i s ≡ s)
      → to_response now a ≡ ok v
      → get codec run.read run.discarded
          (build_cache_key digest request (some key))
          (run.clock 0)
          t.redis
          t.effects.metrics
        ≡ (some v, redis, m)
      → let out = stream_response codec ttl run digest context request registry key t in
        (replayed : List Text) × (out.0
          ≡ record { sent = map relayed_line replayed; ending = none })
        × (assemble replayed later ≡ ok (record v { created = later }))
        × (out.1.world ≡ t.world)
        × ((u : UsageRecord) × (u.estimated_cost ≡ 0)
            × (u.provider ≡ "cache")
            × (out.1.effects.pending ≡ t.effects.pending ++ persist u ∷ []))
  unfolding stream_response replay_or_relay schedule_cached_stream_usage record_served
      fire_and_forget build_usage_record
  stream_response_hit digest context request registry t a now v redis m later quiet built found =
      let (lines, written, read) =
        stored-AreReplay a now (unix_time (run.clock 3)) (unix_time (run.clock 4))
          (unix_time (run.clock 5)) later v built in
      rw (found, written)
        (
          lines,
          refl,
          read,
          ap (λ (s : State _). s.world) (quiet 0 _),
          (
            u,
            omega arith,
            refl,
            ap (λ (s : State _). s.effects.pending ++ persist u ∷ []) (quiet 0 _),
          ),
        )
    where
      u : UsageRecord
      u = build_usage_record key "cache" free v.model v.usage (latency_ms run.started (run.clock 9))

  -- A request that misses the cache, and whose stream ends regularly.
  pub stream_response_missed :
      (digest : ChatRequest × Option ℕ → String) (context : Option String) (request : ChatRequest)
      (registry : Dict (BaseProvider W)) (s : State W) (lines : List Text) (served : Served W)
      → ((i : ℕ) (s : State W) → run.others i s ≡ s)
      → (get codec run.read run.discarded
          (build_cache_key digest request (some key))
          (run.clock 0)
          s.redis
          s.effects.metrics).0
        ≡ none
      → drain (stream_chat_completion request registry s.world).0 unserved ≡ (lines, none, served)
      → (before : State W) × (stream_response codec ttl run digest context request registry key s
          ≡ end_stream codec ttl run context
              (build_cache_key digest request (some key))
              key
              request.model
              (lines, none, served)
              before)
  unfolding stream_response replay_or_relay
  stream_response_missed digest context request registry s lines served quiet missed drained =
      let found =
        get codec run.read run.discarded (build_cache_key digest request (some key)) (run.clock 0)
          s.redis s.effects.metrics in
      let looked : State W =
        run.others 0
          (record s { redis = found.1; effects = record s.effects { metrics = found.2 } }) in
      let same : looked.world ≡ s.world = ap (λ (t : State W). t.world) (quiet 0 _) in
      let before : State W =
        run.others 1
          (record looked { world = (stream_chat_completion request registry looked.world).1 }) in
      let read : drain (stream_chat_completion request registry looked.world).0 unserved
          ≡ (lines, none, served) =
        rw same drained in
      (
        before,
        rw missed (
            ap
              (λ d.
                end_stream codec ttl run context (build_cache_key digest request (some key)) key
                  request.model d before)
              read),
      )

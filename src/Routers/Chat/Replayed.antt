-- ===== src/Routers/Chat/Replayed.antt =====
-- src/llm_gateway/routers/chat.py: a streaming request that repeats one before it.
use myown_llm_gateway.Base.{
  ℕ, ◌+◌, ◌<◌, String, true, Option, none, some, List, [], ◌∷◌, ◌++◌, ◌≡◌, refl, sym, ◌∙◌, map,
}
use mathlib.Core.Path.{subst}
use myown_llm_gateway.Base.Dict.{Dict}
use myown_llm_gateway.Base.Text.{Text}
use myown_llm_gateway.Core.Exceptions.{ok}
use myown_llm_gateway.Core.RateLimiter.{answered}
use myown_llm_gateway.Models.Api.{ChatRequest, ChatResponse}
use myown_llm_gateway.Models.Usage.{UsageRecord}
use myown_llm_gateway.Providers.Base.{BaseProvider}
use myown_llm_gateway.Services.Cache.{Codec, seconds, build_cache_key, get}
use myown_llm_gateway.Services.Gateway.Repeat.{get-stored}
use myown_llm_gateway.Services.Prometheus.{record_cache_event}
use myown_llm_gateway.Services.SingleFlight.{State, Run}
use myown_llm_gateway.Services.Streaming.{stream_chat_completion}
use myown_llm_gateway.Services.Streaming.Chunks.{to_response}
use myown_llm_gateway.Services.Streaming.Assembly.{assemble}
use myown_llm_gateway.Services.Usage.{persist}
use myown_llm_gateway.Routers.Chat.Drained.{HasRead, drain-HasRead}
use myown_llm_gateway.Routers.Chat.Stream.{
  Body, relayed_line, Served, unserved, drain, end_stream, stream_response, unix_time,
}
use myown_llm_gateway.Routers.Chat.Repeats.{
  assemble-stored, end_stream-redis, end_stream-body, stream_response_hit, stream_response_missed,
}

-- After a streaming request that missed the cache and whose provider's stream ended regularly, with
-- chunks of which a response was built and stored in Redis, the same request of the same key within
-- the time to live is answered from the cache: a client assembles the same response from its lines
-- as from those of the first stream, no provider is called, and the row that it leaves has no cost.
-- Nobody else acts in between, and pydantic reads back what it wrote for the response.
pub stream_response_repeated :
    {W : Type 0} (codec : Codec) (ttl : ℕ) (run again : Run W)
    (digest : ChatRequest × Option ℕ → String) (context : Option String) (request : ChatRequest)
    (registry : Dict (BaseProvider W)) (key : ℕ) (s : State W) (lines : List Text)
    (served : Served W) (r : ChatResponse) (later : ℕ)
    → ((i : ℕ) (s : State W) → run.others i s ≡ s)
    → ((i : ℕ) (s : State W) → again.others i s ≡ s)
    → run.written ≡ answered
    → again.read ≡ answered
    → codec.decode (codec.encode r) ≡ some r
    → again.clock 0 < run.clock 8 + seconds ttl
    → (get codec run.read run.discarded
        (build_cache_key digest request (some key))
        (run.clock 0)
        s.redis
        s.effects.metrics).0
      ≡ none
    → drain (stream_chat_completion request registry s.world).0 unserved ≡ (lines, none, served)
    → served.accumulator.saw_any_chunk ≡ true
    → to_response (unix_time (run.clock 7)) served.accumulator ≡ ok r
    → let first = stream_response codec ttl run digest context request registry key s in
      let second = stream_response codec ttl again digest context request registry key first.1 in
      (first.0 ≡ record { sent = map relayed_line lines; ending = none })
      × ((replayed : List Text) × (second.0
            ≡ record { sent = map relayed_line replayed; ending = none })
          × (assemble replayed later ≡ assemble lines later)
          × (second.1.world ≡ first.1.world)
          × ((u : UsageRecord) × (u.estimated_cost ≡ 0)
              × (u.provider ≡ "cache")
              × (second.1.effects.pending ≡ first.1.effects.pending ++ persist u ∷ [])))
stream_response_repeated {W} codec ttl run again digest context request registry key s lines served
      r later quiet quiet' written read reads fresh missed drained saw built =
    let (before, first) =
      stream_response_missed codec ttl run key digest context request registry s lines served quiet
        missed drained in
    let (redis, stored) =
      end_stream-redis codec ttl run key context cache_key request.model lines served before r saw
        built in
    let ended : Body × State W =
      end_stream codec ttl run context cache_key key request.model (lines, none, served) before in
    let found =
      get-stored codec ttl (run.clock 8) (again.clock 0) run.written again.read again.discarded
        cache_key r ended.1.redis redis ended.1.effects.metrics written read stored reads fresh in
    let (replayed, sent, heard, world, row) =
      stream_response_hit codec ttl again key digest context request registry ended.1
        served.accumulator (unix_time (run.clock 7)) r ended.1.redis
        (record_cache_event "hit" ended.1.effects.metrics) later quiet' built found in
    let whole =
      subst (HasRead unserved) drained
        (drain-HasRead (stream_chat_completion request registry s.world).0 unserved) refl in
    rw first (
      (end_stream-body codec ttl run key context cache_key request.model lines served before r saw
          built).0,
      (
        replayed,
        sent,
        heard
            ∙ sym (
                assemble-stored lines served.accumulator (unix_time (run.clock 7)) later r whole.1
                  built),
        world,
        row,
      ),
    )
  where
    cache_key : String
    cache_key = build_cache_key digest request (some key)

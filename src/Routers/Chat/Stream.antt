-- ===== src/Routers/Chat/Stream.antt =====
-- `_stream_response`, the body of a streaming response, up to its end. An error event is kept as its
-- fields.
use myown_llm_gateway.Base.{
  ℕ, ◌/◌, String, Option, none, some, List, [], ◌∷◌, ◌++◌, str_eq, if◌then◌else◌, map,
}
use myown_llm_gateway.Base.Dict.{Dict}
use myown_llm_gateway.Base.Text.{Text}
use myown_llm_gateway.Core.Exceptions.{
  generic, timeout, auth, rate_limited, Exception, provider_error, no_provider_available, Result,
  ok, raise, ◌>>=◌, message,
}
use myown_llm_gateway.Models.Api.{ChatRequest, ChatResponse, Usage, no_usage}
use myown_llm_gateway.Providers.Base.{BaseProvider}
use myown_llm_gateway.Services.Cache.{Codec, build_cache_key, get, set}
use myown_llm_gateway.Services.SingleFlight.{State, Run, latency_ms}
use myown_llm_gateway.Services.Streaming.{
  Relay, closed, raised, relayed, stream_chat_completion, schedule_stream_usage,
  schedule_cached_stream_usage,
}
use myown_llm_gateway.Services.Streaming.Chunks.{
  ChunkAccumulator, no_chunks, capture_usage, feed, to_response,
}
use myown_llm_gateway.Services.Streaming.Cached.{synthesize_cached_stream}
use myown_llm_gateway.Services.Usage.{record_failed_request}
use myown_llm_gateway.Routers.Http.{
  ErrorText, upstream_timed_out, upstream_rate_limited, upstream_error, model_does_not_exist,
}
use myown_llm_gateway.Routers.Chat.Guards.{classify_upstream_error}

pub record ErrorEvent : Type 0 where
  pub message : ErrorText
  pub kind : String
  pub attempted_providers : Option (List String)
  pub retry_after : Option String
  pub request_id : Option String

-- What is yielded.
pub data Sent : Type 0 where
  relayed_line : Text → Sent
  error_event : ErrorEvent → Sent

-- All that was yielded, and the exception that ended it, if one did.
pub record Body : Type 0 where
  pub sent : List Sent
  pub ending : Option Exception

-- `_sse_error`, over the context's request id
unfoldable pub sse_error :
    Option String → ErrorText → String → Option (List String) → Option String → ErrorEvent
sse_error context message kind attempted_providers retry_after = record {
  message = message;
  kind = kind;
  attempted_providers = attempted_providers;
  retry_after = retry_after;
  request_id = elim context [ none ↦ none | some id ↦ if str_eq id "" then none else some id ];
}

-- The variables of the loop.
pub record Served (W : Type 0) : Type 0 where
  pub serving_provider : Option (BaseProvider W)
  pub usage : Usage
  pub accumulator : ChunkAccumulator

abbrev pub or_first {ℓ} : {A : Type ℓ} → Option A → A → A
or_first none b = b
or_first (some a) b = a

-- What the `except` blocks make of an exception: the event and the `error_type` of the row.
unfoldable pub on_failure : Option String → String → Exception → Option (ErrorEvent × String)
unfolding sse_error classify_upstream_error message
on_failure context model (no_provider_available [] last_error) =
    some (
      sse_error context (model_does_not_exist model) "model_not_found" none none,
      "model_not_found",
    )
on_failure context model (no_provider_available (p ∷ ps) last_error) =
    let (status_code, kind, text, retry_after) = classify_upstream_error last_error in
    some (sse_error context text kind (some (p ∷ ps)) retry_after, "upstream_error")
on_failure context model (provider_error (timeout m p)) =
    some (sse_error context (upstream_timed_out m) "timeout_error" none none, "timeout_error")
on_failure context model (provider_error (rate_limited m p retry_after)) = some (
  sse_error context (upstream_rate_limited m) "rate_limit_error" none retry_after,
  "rate_limit_error",
)
on_failure context model (provider_error (generic m p)) =
    some (sse_error context (upstream_error m) "upstream_error" none none, "upstream_error")
on_failure context model (provider_error (auth m p)) =
    some (sse_error context (upstream_error m) "upstream_error" none none, "upstream_error")
on_failure context model e = none

-- `int(time.time())`
abbrev pub unix_time : ℕ → ℕ
unix_time now = now / 1000000

module _ {W : Type 0} where
  -- The statements of the loop before its `yield`.
  unfoldable pub advance : BaseProvider W → Text → Served W → Result (Served W)
  advance p l s = do
    usage ← capture_usage l s.usage
    accumulator ← feed l s.accumulator
    ok (record {
      serving_provider = some (or_first s.serving_provider p);
      usage = usage;
      accumulator = accumulator;
    })

  -- The loop: the lines that it yields, the exception that ends it, and its variables.
  unfoldable pub drain : Relay W → Served W → List Text × Option Exception × Served W
  drain closed s = ([], none, s)
  drain (raised e) s = ([], some e, s)
  drain (relayed p l rest) s =
      let more : Served W → List Text × Option Exception × Served W =
        λ next. let (ls, ending, s') = drain rest next in (l ∷ ls, ending, s') in
      elim (advance p l s) [ raise e ↦ ([], some e, s) | ok next ↦ more next ]

  -- The variables before the loop.
  abbrev pub unserved : Served W
  unserved = record { serving_provider = none; usage = no_usage; accumulator = no_chunks }

module _ {W : Type 0} (codec : Codec) (ttl_seconds : ℕ) (run : Run W) where
  abbrev latency : ℕ
  latency = latency_ms run.started (run.clock 9)

  -- The row of a stream that a provider served.
  unfoldable pub settle : ℕ → String → Usage → Option (BaseProvider W) → State W → State W
  settle virtual_key_id model usage none s = s
  settle virtual_key_id model usage (some p) s = record s {
    effects = schedule_stream_usage virtual_key_id p model usage latency s.effects;
  }

  -- The row of a failed stream, if an `except` block takes the exception.
  unfoldable pub fail :
      ℕ → String → List Text → Exception → Option (ErrorEvent × String) → State W → Body × State W
  fail virtual_key_id model lines e none s =
      (record { sent = map relayed_line lines; ending = some e }, s)
  fail virtual_key_id model lines e (some (event, error_type)) s = (
    record { sent = map relayed_line lines ++ error_event event ∷ []; ending = none },
    record s {
      effects = record_failed_request virtual_key_id "" model latency error_type s.effects;
    },
  )

  abbrev pub write : String → List Text → Result ChatResponse → State W → Body × State W
  write cache_key lines (raise e) s = (record { sent = map relayed_line lines; ending = some e }, s)
  write cache_key lines (ok response) s = (
    record { sent = map relayed_line lines; ending = none },
    record s { redis = set codec ttl_seconds run.written cache_key response (run.clock 8) s.redis },
  )

  -- `cache_service.set(cache_key, accumulator.to_response())`, if a chunk was there
  unfoldable pub store : String → ChunkAccumulator → List Text → State W → Body × State W
  store cache_key accumulator lines s =
      if accumulator.saw_any_chunk
      then write cache_key lines (to_response (unix_time (run.clock 7)) accumulator) s
      else (record { sent = map relayed_line lines; ending = none }, s)

  -- The end of the loop.
  unfoldable pub end_stream :
      Option String
      → String
      → ℕ
      → String
      → List Text × Option Exception × Served W
      → State W
      → Body × State W
  end_stream context cache_key virtual_key_id model (lines, some e, served) s =
      fail virtual_key_id model lines e (on_failure context model e) s
  end_stream context cache_key virtual_key_id model (lines, none, served) s =
      store cache_key served.accumulator lines
        (settle virtual_key_id model served.usage served.serving_provider s)

  abbrev pub replay : ℕ → ChatResponse → Result (List Text) → State W → Body × State W
  replay virtual_key_id cached (raise e) s = (record { sent = []; ending = some e }, s)
  replay virtual_key_id cached (ok lines) s = (
    record { sent = map relayed_line lines; ending = none },
    record s { effects = schedule_cached_stream_usage virtual_key_id cached latency s.effects },
  )

  -- The branches after the read of the cache; the row of a replay is scheduled after its lines.
  unfoldable pub replay_or_relay :
      Option String
      → String
      → ChatRequest
      → Dict (BaseProvider W)
      → ℕ
      → Option ChatResponse
      → State W
      → Body × State W
  replay_or_relay context cache_key request registry virtual_key_id (some cached) s =
      replay virtual_key_id cached
        (synthesize_cached_stream cached (unix_time (run.clock 3)) (unix_time (run.clock 4))
          (unix_time (run.clock 5)))
        s
  replay_or_relay context cache_key request registry virtual_key_id none s =
      let (relay, world) = stream_chat_completion request registry s.world in
      end_stream context cache_key virtual_key_id request.model (drain relay unserved)
        (run.others 1 (record s { world = world }))

  unfoldable pub stream_response :
      (ChatRequest × Option ℕ → String)
      → Option String
      → ChatRequest
      → Dict (BaseProvider W)
      → ℕ
      → State W
      → Body × State W
  unfolding replay_or_relay
  stream_response digest context request registry virtual_key_id s =
      let cache_key = build_cache_key digest request (some virtual_key_id) in
      let (cached, redis, metrics) =
        get codec run.read run.discarded cache_key (run.clock 0) s.redis s.effects.metrics in
      replay_or_relay context cache_key request registry virtual_key_id cached (
        run.others 0 (record s { redis = redis; effects = record s.effects { metrics = metrics } }))

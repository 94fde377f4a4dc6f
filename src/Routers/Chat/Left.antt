-- ===== src/Routers/Chat/Left.antt =====
-- `_stream_response` of routers/chat.py, whose client leaves it: the generator is closed where it
-- waits at a `yield`, no `except` block takes this, and `finally` finds `success` unset.
use myown_llm_gateway.Base.{
  ℕ, suc, String, Option, none, some, List, map, ltb, length, take, if◌then◌else◌,
}
use myown_llm_gateway.Base.Dict.{Dict}
use myown_llm_gateway.Base.Text.{Text}
use myown_llm_gateway.Core.Exceptions.{Result, ok, raise}
use myown_llm_gateway.Models.Api.{ChatRequest, ChatResponse}
use myown_llm_gateway.Providers.Base.{BaseProvider}
use myown_llm_gateway.Services.Cache.{Codec, build_cache_key, get}
use myown_llm_gateway.Services.SingleFlight.{State, Run}
use myown_llm_gateway.Services.Streaming.{stream_chat_completion}
use myown_llm_gateway.Services.Streaming.Cached.{synthesize_cached_stream}
use myown_llm_gateway.Routers.Chat.Stream.{
  Sent, relayed_line, Body, unserved, drain, end_stream, replay, unix_time,
}

module _ {W : Type 0} (codec : Codec) (ttl_seconds : ℕ) (run : Run W) (n : ℕ) where
  -- The lines up to the one at which the client leaves, or else the whole body.
  abbrev cut : List Text → State W → Body × State W → List Sent × State W
  cut lines s whole =
      if ltb n (length lines)
      then (map relayed_line (take (suc n) lines), s)
      else (whole.0.sent, whole.1)

  abbrev left_replay : ℕ → ChatResponse → Result (List Text) → State W → List Sent × State W
  left_replay virtual_key_id cached (ok lines) s =
      cut lines s (replay codec ttl_seconds run virtual_key_id cached (ok lines) s)
  left_replay virtual_key_id cached (raise e) s =
      let whole = replay codec ttl_seconds run virtual_key_id cached (raise e) s in
      (whole.0.sent, whole.1)

  -- The branches after the read of the cache.
  abbrev left_after :
      Option String
      → String
      → ChatRequest
      → Dict (BaseProvider W)
      → ℕ
      → Option ChatResponse
      → State W
      → List Sent × State W
  left_after context cache_key request registry virtual_key_id (some cached) s =
      left_replay virtual_key_id cached
        (synthesize_cached_stream cached (unix_time (run.clock 3)) (unix_time (run.clock 4))
          (unix_time (run.clock 5)))
        s
  left_after context cache_key request registry virtual_key_id none s =
      let (relay, world) = stream_chat_completion request registry s.world in
      let opened = run.others 1 (record s { world = world }) in
      let loop = drain relay unserved in
      cut loop.0 opened (
        end_stream codec ttl_seconds run context cache_key virtual_key_id request.model loop opened)

  -- A client that leaves at the line number `n`, from 0 on: what was sent to it, and the state.
  unfoldable pub stream_left :
      (ChatRequest × Option ℕ → String)
      → Option String
      → ChatRequest
      → Dict (BaseProvider W)
      → ℕ
      → State W
      → List Sent × State W
  stream_left digest context request registry virtual_key_id s =
      let cache_key = build_cache_key digest request (some virtual_key_id) in
      let (cached, redis, metrics) =
        get codec run.read run.discarded cache_key (run.clock 0) s.redis s.effects.metrics in
      left_after context cache_key request registry virtual_key_id cached (
        run.others 0 (record s { redis = redis; effects = record s.effects { metrics = metrics } }))

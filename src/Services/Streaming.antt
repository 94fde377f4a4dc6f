-- ===== src/Services/Streaming.antt =====
-- src/llm_gateway/services/streaming.py: the fallback of streaming requests, and the rows of their
-- usage. The reading of the chunks is in Chunks, the replay of a cached response in Cached.
pub mod Assembly
pub mod Cached
pub mod Chunks
pub mod Lines
pub mod Refusals
pub mod Stored
pub mod Replay
pub mod Source
use myown_llm_gateway.Base.{ℕ, String, Option, none, some, List, [], ◌∷◌, ◌++◌}
use myown_llm_gateway.Base.Dict.{Dict}
use myown_llm_gateway.Base.Text.{Text}
use myown_llm_gateway.Core.Exceptions.{
  ProviderError, Exception, provider_error, no_provider_available,
}
use myown_llm_gateway.Models.Api.{ChatRequest, ChatResponse, Usage}
use myown_llm_gateway.Models.Provider.{free, pricing_for}
use myown_llm_gateway.Providers.Base.{Stream, finished, failed, line, BaseProvider}
use myown_llm_gateway.Services.Metrics.{build_usage_record}
use myown_llm_gateway.Services.Router.{select_providers}
use myown_llm_gateway.Services.Usage.{Effects, record_served}

-- What the generator yields, pairs of a provider and a line, until it stops or raises.
pub data Relay (W : Type 0) : Type 0 where
  closed : Relay W
  raised : Exception → Relay W
  relayed : BaseProvider W → Text → Relay W → Relay W

module _ {W : Type 0} where
  -- `async for line in iterator: yield provider, line`
  unfoldable pub relay : BaseProvider W → Stream → Relay W
  relay p finished = closed
  relay p (failed e) = raised e
  relay p (line l rest) = relayed p l (relay p rest)

  -- The loop, over `attempted` and `last_error`: a provider whose stream ends or fails with a
  -- `ProviderError` before its first line is passed over.
  unfoldable pub try_streams :
      List (BaseProvider W) → ChatRequest → List String → Option ProviderError → W → Relay W × W
  unfolding relay
  try_streams [] request attempted last_error w =
      (raised (no_provider_available attempted last_error), w)
  try_streams (p ∷ ps) request attempted last_error w =
      let (stream, w') = p.stream_chat_completion request w in
      elim stream [
        | finished ↦ try_streams ps request (attempted ++ p.config.name ∷ []) last_error w'
        | failed (provider_error e) ↦
            try_streams ps request (attempted ++ p.config.name ∷ []) (some e) w'
        | failed e ↦ (raised e, w')
        | line l rest ↦ (relayed p l (relay p rest), w')
      ]

  unfoldable pub stream_chat_completion : ChatRequest → Dict (BaseProvider W) → W → Relay W × W
  unfolding try_streams
  stream_chat_completion request registry w =
      try_streams (select_providers registry request.model) request [] none w

  unfoldable pub schedule_stream_usage : ℕ → BaseProvider W → String → Usage → ℕ → Effects → Effects
  schedule_stream_usage virtual_key_id provider model usage latency_ms e =
      record_served
        (build_usage_record virtual_key_id provider.config.name (pricing_for provider.config model)
          model usage latency_ms)
        e

unfoldable pub schedule_cached_stream_usage : ℕ → ChatResponse → ℕ → Effects → Effects
schedule_cached_stream_usage virtual_key_id response latency_ms e =
    record_served
      (build_usage_record virtual_key_id "cache" free response.model response.usage latency_ms) e

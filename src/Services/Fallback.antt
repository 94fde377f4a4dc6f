-- ===== src/Services/Fallback.antt =====
-- src/llm_gateway/services/fallback.py: the providers are tried in order until one answers.
pub mod Laws
use myown_llm_gateway.Base.{String, Option, none, some, List, [], ◌∷◌, ◌++◌}
use myown_llm_gateway.Core.Exceptions.{
  ProviderError, Exception, provider_error, no_provider_available, Result, ok, raise,
}
use myown_llm_gateway.Models.Api.{ChatRequest, ChatResponse}
use myown_llm_gateway.Providers.Base.{BaseProvider}

module _ {W : Type 0} where
  -- The loop, over `attempted` and `last_error`. Auth errors and the others differ by a log line
  -- alone. An exception that is no `ProviderError` is not caught.
  unfoldable pub try_providers :
      List (BaseProvider W)
      → ChatRequest
      → List String
      → Option ProviderError
      → W
      → Result (BaseProvider W × ChatResponse) × W
  try_providers [] request attempted last_error w =
      (raise (no_provider_available attempted last_error), w)
  try_providers (p ∷ ps) request attempted last_error w =
      let (result, w') = p.chat_completion request w in
      elim result [
        | ok response ↦ (ok (p, response), w')
        | raise (provider_error e) ↦
            try_providers ps request (attempted ++ p.config.name ∷ []) (some e) w'
        | raise e ↦ (raise e, w')
      ]

  unfoldable pub execute_with_fallback :
      List (BaseProvider W) → ChatRequest → W → Result (BaseProvider W × ChatResponse) × W
  unfolding try_providers
  execute_with_fallback providers request = try_providers providers request [] none

-- ===== src/Providers/Mistral.antt =====
-- src/llm_gateway/providers/mistral.py: the adapter of Mistral, whose API is OpenAI's, with a key.
use Prim.Native.String.{◌++◌}
use myown_llm_gateway.Base.{String, Option, [], ◌∷◌}
use myown_llm_gateway.Base.Dict.{Dict}
use myown_llm_gateway.Base.Json.{Json}
use myown_llm_gateway.Core.Exceptions.{Result}
use myown_llm_gateway.Models.Api.{ChatResponse}
use myown_llm_gateway.Models.Provider.{ProviderConfig}
use myown_llm_gateway.Providers.Base.{BaseProvider}
use myown_llm_gateway.Providers.Client.{Client}
use myown_llm_gateway.Providers.OpenAi.{base_url, complete, complete_stream}

abbrev pub default_base_url : String
default_base_url = "https://api.mistral.ai/v1"

unfoldable bearer : String → Dict String
bearer api_key = ("Authorization", "Bearer " ++ api_key) ∷ []

module _ {W : Type 0} (client : Client W) (context : Option String)
    (validate : Json → Result ChatResponse) (config : ProviderConfig) where
  -- `MistralProvider(config, client, api_key=api_key)`
  unfoldable mistral_provider : String → BaseProvider W
  mistral_provider api_key =
      let base = base_url config default_base_url in
      record {
        config = config;
        chat_completion = complete client context validate config (bearer api_key) base;
        stream_chat_completion =
            complete_stream client context validate config (bearer api_key) base;
      }

-- ===== src/Providers/Factory.antt =====
-- src/llm_gateway/providers/factory.py: the catalogue of services, and the registry.
pub mod Registry
pub mod Pricing
use myown_llm_gateway.Base.{
  ℕ, String, Bool, true, false, Option, none, some, List, [], ◌∷◌, ◌++◌, str_eq, if◌then◌else◌,
}
use myown_llm_gateway.Base.Int.{pos}
use myown_llm_gateway.Base.Dict.{Dict}
use myown_llm_gateway.Models.Provider.{ModelPricing, ProviderConfig}
use myown_llm_gateway.Providers.OpenAi
use myown_llm_gateway.Providers.Mistral

-- The settings that the factory reads (core/config.py).
pub record Credentials : Type 0 where
  pub openai_api_key : Option String
  pub anthropic_api_key : Option String
  pub mistral_api_key : Option String
  pub groq_api_key : Option String
  pub gemini_api_key : Option String
  pub deepseek_api_key : Option String
  pub deepseek_base_url : String
  pub ollama_enabled : Bool
  pub ollama_base_url : String
  pub ollama_api_key : Option String

-- A provider by its class and what its constructor is given.
pub data Adapter : Type 0 where
  open_ai : ProviderConfig → Option String → Adapter
  anthropic mistral : ProviderConfig → String → Adapter

abbrev pub config_of : Adapter → ProviderConfig
config_of (open_ai c k) = c
config_of (anthropic c k) = c
config_of (mistral c k) = c

abbrev price : ℕ → ℕ → ModelPricing
price i o = record { input_cost_per_1m = i; output_cost_per_1m = o }

abbrev openai_pricing : Dict ModelPricing
openai_pricing = ("gpt-4o", price 250 1000) ∷ ("gpt-4o-mini", price 15 60) ∷ []

abbrev groq_pricing : Dict ModelPricing
groq_pricing = ("llama-3.1-70b-versatile", price 59 79) ∷ ("llama-3.1-8b-instant", price 5 8) ∷ []

abbrev anthropic_pricing : Dict ModelPricing
anthropic_pricing =
    ("claude-3-5-sonnet-latest", price 300 1500) ∷ ("claude-3-5-haiku-latest", price 80 400) ∷ []

abbrev mistral_pricing : Dict ModelPricing
mistral_pricing =
    ("mistral-large-latest", price 50 150) ∷ ("mistral-small-latest", price 15 60) ∷ []

abbrev gemini_pricing : Dict ModelPricing
gemini_pricing = ("gemini-2.0-flash", price 10 40) ∷ ("gemini-2.5-pro", price 125 1000) ∷ []

abbrev deepseek_pricing : Dict ModelPricing
deepseek_pricing = ("deepseek-chat", price 27 110) ∷ ("deepseek-reasoner", price 55 219) ∷ []

-- `_config`: the defaults of `ProviderConfig` are priority 0 and 30 seconds
abbrev config : String → String → List String → Dict ModelPricing → ProviderConfig
config name base_url supported_models model_pricing = record {
  name = name;
  base_url = base_url;
  supported_models = supported_models;
  priority = pos 0;
  timeout = 30000;
  model_pricing = model_pricing;
}

-- `if settings.X_API_KEY: providers.append(...)`
abbrev if_key : Option String → (String → Adapter) → List Adapter
if_key none make = []
if_key (some key) make = if str_eq key "" then [] else make key ∷ []

abbrev openai_config : ProviderConfig
openai_config =
    config "openai" OpenAi.default_base_url ("gpt-4o" ∷ "gpt-4o-mini" ∷ []) openai_pricing

abbrev groq_config : ProviderConfig
groq_config =
    config "groq" "https://api.groq.com/openai/v1"
      ("llama-3.1-70b-versatile" ∷ "llama-3.1-8b-instant" ∷ []) groq_pricing

abbrev anthropic_config : ProviderConfig
anthropic_config =
    config "anthropic" "https://api.anthropic.com"
      ("claude-3-5-sonnet-latest" ∷ "claude-3-5-haiku-latest" ∷ []) anthropic_pricing

abbrev mistral_config : ProviderConfig
mistral_config =
    config "mistral" Mistral.default_base_url ("mistral-large-latest" ∷ "mistral-small-latest" ∷ [])
      mistral_pricing

abbrev gemini_config : ProviderConfig
gemini_config =
    config "gemini" "https://generativelanguage.googleapis.com/v1beta/openai"
      ("gemini-2.0-flash" ∷ "gemini-2.5-pro" ∷ []) gemini_pricing

abbrev deepseek_config : String → ProviderConfig
deepseek_config base =
    config "deepseek" base ("deepseek-chat" ∷ "deepseek-reasoner" ∷ []) deepseek_pricing

abbrev ollama_config : String → ProviderConfig
ollama_config base = config "ollama" base ("llama3.2" ∷ []) []

-- `build_registry`: the providers in the order in which they are appended
unfoldable pub build_providers : Credentials → List Adapter
build_providers s =
    if_key s.openai_api_key (λ k. open_ai openai_config (some k))
    ++ (if_key s.groq_api_key (λ k. open_ai groq_config (some k))
        ++ (if_key s.anthropic_api_key (anthropic anthropic_config)
            ++ (if_key s.mistral_api_key (mistral mistral_config)
                ++ (if_key s.gemini_api_key (λ k. open_ai gemini_config (some k))
                    ++ (if_key s.deepseek_api_key
                          (λ k. open_ai (deepseek_config s.deepseek_base_url) (some k))
                        ++ (if s.ollama_enabled
                            then open_ai (ollama_config s.ollama_base_url) s.ollama_api_key ∷ []
                            else []))))))

-- ===== src/Providers/Factory/Pricing.antt =====
-- The price tables of the factory cover the models that it offers.
use myown_llm_gateway.Base.{
  String, Bool, true, false, Option, none, some, [], ◌∷◌, ◌≡◌, refl, ◌⊎◌, inl, inr, str_eq, All,
  All-append, is_none, null, Bool-cases, if◌then◌else◌,
}
use myown_llm_gateway.Base.Dict.{lookup}
use myown_llm_gateway.Models.Provider.{ProviderConfig}
use myown_llm_gateway.Providers.Factory.{
  Credentials, Adapter, config_of, build_providers, if_key, ollama_config, open_ai,
}

-- A price for every model that it serves, and at least one model: it is no wildcard.
abbrev IsPriced : ProviderConfig → Type 0
IsPriced c = All (λ m. is_none (lookup m c.model_pricing) ≡ false) c.supported_models

abbrev pub IsBilled : Adapter → Type 0
IsBilled a =
    (IsPriced (config_of a) ⊎ ((config_of a).name ≡ "ollama"))
    × (null (config_of a).supported_models ≡ false)

if_key-IsBilled :
    (key : Option String) (make : String → Adapter)
    → ((k : String) → IsBilled (make k))
    → All IsBilled (if_key key make)
if_key-IsBilled none make h = tt
if_key-IsBilled (some k) make h = elim (Bool-cases (str_eq k "")) [
  | inl e ↦ rw e tt
  | inr e ↦ rw e (h k, tt)
]

ollama-IsBilled :
    (b : Bool) (base : String) (key : Option String)
    → All IsBilled (if b then open_ai (ollama_config base) key ∷ [] else [])
ollama-IsBilled true base key = ((inr refl, refl), tt)
ollama-IsBilled false base key = tt

-- Whatever the settings, every provider that the factory builds lists at least one model, so it is
-- no wildcard, and has a price for each model it lists, except the one named "ollama".
pub build_providers-IsBilled : (s : Credentials) → All IsBilled (build_providers s)
unfolding build_providers
build_providers-IsBilled s =
    All-append IsBilled _ _
      (if_key-IsBilled s.openai_api_key _ (λ k. (inl (refl, (refl, tt)), refl)))
      (All-append IsBilled _ _
        (if_key-IsBilled s.groq_api_key _ (λ k. (inl (refl, (refl, tt)), refl)))
        (All-append IsBilled _ _
          (if_key-IsBilled s.anthropic_api_key _ (λ k. (inl (refl, (refl, tt)), refl)))
          (All-append IsBilled _ _
            (if_key-IsBilled s.mistral_api_key _ (λ k. (inl (refl, (refl, tt)), refl)))
            (All-append IsBilled _ _
              (if_key-IsBilled s.gemini_api_key _ (λ k. (inl (refl, (refl, tt)), refl)))
              (All-append IsBilled _ _
                (if_key-IsBilled s.deepseek_api_key _ (λ k. (inl (refl, (refl, tt)), refl)))
                (ollama-IsBilled s.ollama_enabled s.ollama_base_url s.ollama_api_key))))))

-- ===== src/Tests/Routing.antt =====
-- services/router.py, services/fallback.py and providers/factory.py on concrete providers.
use myown_llm_gateway.Base.{
  ℕ, ◌+◌, String, true, Option, none, some, List, [], ◌∷◌, ◌≡◌, refl, ◌⊎◌, map, All,
}
use myown_llm_gateway.Base.Int.{ℤ, pos, negsuc}
use myown_llm_gateway.Base.Dict.{Dict}
use myown_llm_gateway.Base.Sort.{sort_by}
use myown_llm_gateway.Models.Api.{ChatResponse}
use myown_llm_gateway.Tests.Samples.{request, response}
use myown_llm_gateway.Core.Exceptions.{
  Result, ok, raise, ProviderError, provider_error, generic, timeout, returned_http,
  timed_out_after, Exception, no_provider_available,
}
use myown_llm_gateway.Providers.Base.{BaseProvider, finished}
use myown_llm_gateway.Providers.Factory.{Credentials, build_providers}
use myown_llm_gateway.Providers.Factory.Registry.{registry}
use myown_llm_gateway.Providers.Factory.Pricing.{IsBilled, build_providers-IsBilled}
use myown_llm_gateway.Services.Router.{select_providers}
use myown_llm_gateway.Services.Fallback.{execute_with_fallback}
use myown_llm_gateway.Services.Fallback.Laws.{
  IsUncaught, names, Falls, EndsAt, execute_with_fallback-Explained,
}

-- The world counts the calls.
abbrev named : String → ℤ → List String → Result ChatResponse → BaseProvider ℕ
named name priority supported_models answer = record {
  config = record {
    name = name;
    base_url = "http://localhost";
    supported_models = supported_models;
    priority = priority;
    timeout = 1000;
    model_pricing = [];
  };
  chat_completion = λ request calls. (answer, calls + 1);
  stream_chat_completion = λ request calls. (finished, calls + 1);
}

abbrev slow : BaseProvider ℕ
slow =
    named "slow" (pos 5) ("m" ∷ [])
      (raise (provider_error (timeout (timed_out_after "slow" 1000) "slow")))

abbrev wildcard : BaseProvider ℕ
wildcard = named "wildcard" (pos 5) [] (ok response)

abbrev other : BaseProvider ℕ
other = named "other" (pos 0) ("n" ∷ []) (ok response)

abbrev first : BaseProvider ℕ
first =
    named "first" (negsuc 0) ("n" ∷ "m" ∷ [])
      (raise (provider_error (generic (returned_http "first" 500) "first")))

abbrev providers : Dict (BaseProvider ℕ)
providers = registry (λ p. p.config) (slow ∷ wildcard ∷ other ∷ first ∷ [])

selected :
    map (λ p. p.config.name) (select_providers providers "m") ≡ "first" ∷ "slow" ∷ "wildcard" ∷ []
unfolding select_providers sort_by registry
selected = refl

-- The wildcard answers at the third call.
answered_third : (execute_with_fallback (first ∷ slow ∷ wildcard ∷ other ∷ []) request 0).1 ≡ 3
unfolding execute_with_fallback
answered_third = refl

execute_with_fallback-Explained_example :
    let ps = first ∷ slow ∷ wildcard ∷ other ∷ [] in
    ((w' : ℕ) × (last : Option ProviderError) × Falls request ps 0 none w' last
      × (execute_with_fallback ps request 0 ≡ (raise (no_provider_available (names ps) last), w')))
    ⊎ ((p : BaseProvider ℕ) × (r : ChatResponse) × (w' : ℕ) × EndsAt request ps 0 none p (ok r) w'
        × (execute_with_fallback ps request 0 ≡ (ok (p, r), w')))
    ⊎ ((p : BaseProvider ℕ) × (x : Exception) × (w' : ℕ) × IsUncaught x
        × EndsAt request ps 0 none p (raise x) w'
        × (execute_with_fallback ps request 0 ≡ (raise x, w')))
execute_with_fallback-Explained_example =
    execute_with_fallback-Explained (first ∷ slow ∷ wildcard ∷ other ∷ []) request 0

abbrev credentials : Credentials
credentials = record {
  openai_api_key = some "sk";
  anthropic_api_key = none;
  mistral_api_key = some "";
  groq_api_key = none;
  gemini_api_key = some "g";
  deepseek_api_key = none;
  deepseek_base_url = "https://api.deepseek.com/v1";
  ollama_enabled = true;
  ollama_base_url = "http://localhost:11434/v1";
  ollama_api_key = none;
}

build_providers-IsBilled_example : All IsBilled (build_providers credentials)
build_providers-IsBilled_example = build_providers-IsBilled credentials

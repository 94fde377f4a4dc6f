-- ===== src/Services/Router.antt =====
-- src/llm_gateway/services/router.py: the candidates for a model, by ascending priority.
pub mod Laws
use myown_llm_gateway.Base.{String, Bool, List, ◌||◌, null, filter}
use myown_llm_gateway.Base.Dict.{Dict, contains}
use myown_llm_gateway.Base.Sort.{sort_by}
use myown_llm_gateway.Models.Provider.{ProviderConfig}
use myown_llm_gateway.Providers.Base.{BaseProvider}
use myown_llm_gateway.Providers.Factory.Registry.{all_providers}

-- `not p.config.supported_models or model in p.config.supported_models`
abbrev pub serves : {W : Type 0} → String → BaseProvider W → Bool
serves model p = null p.config.supported_models || contains model p.config.supported_models

unfoldable pub select_providers :
    {W : Type 0} → Dict (BaseProvider W) → String → List (BaseProvider W)
select_providers registry model =
    sort_by (λ p. p.config.priority) (filter (serves model) (all_providers registry))

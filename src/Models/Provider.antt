-- ===== src/Models/Provider.antt =====
-- src/llm_gateway/models/provider.py. A price is in hundredths of a dollar for 1,000,000 tokens,
-- which holds every price of the providers' tables exactly; a timeout is in milliseconds.
use myown_llm_gateway.Base.{ℕ, String, List, or_default}
use myown_llm_gateway.Base.Int.{ℤ}
use myown_llm_gateway.Base.Dict.{Dict, lookup}

pub record ModelPricing : Type 0 where
  pub input_cost_per_1m : ℕ
  pub output_cost_per_1m : ℕ

-- `ModelPricing()`
abbrev pub free : ModelPricing
free = record { input_cost_per_1m = 0; output_cost_per_1m = 0 }

pub record ProviderConfig : Type 0 where
  pub name : String
  pub base_url : String
  pub supported_models : List String
  pub priority : ℤ
  pub timeout : ℕ
  pub model_pricing : Dict ModelPricing

unfoldable pub pricing_for : ProviderConfig → String → ModelPricing
pricing_for config model = or_default (lookup model config.model_pricing) free

-- ===== src/Services/Metrics.antt =====
-- src/llm_gateway/services/metrics.py. With prices in cents for 1,000,000 tokens, price times
-- tokens is the cost in units of 10^-8 dollars.
use myown_llm_gateway.Base.{ℕ, ◌+◌, ◌*◌, String}
use myown_llm_gateway.Models.Api.{Usage}
use myown_llm_gateway.Models.Provider.{ModelPricing}
use myown_llm_gateway.Models.Usage.{UsageRecord}
use myown_llm_gateway.Services.Prometheus.{Metrics, record_usage}

unfoldable pub build_usage_record : ℕ → String → ModelPricing → String → Usage → ℕ → UsageRecord
build_usage_record virtual_key_id provider_name pricing model usage latency_ms = record {
  virtual_key_id = virtual_key_id;
  provider = provider_name;
  model = model;
  input_tokens = usage.prompt_tokens;
  output_tokens = usage.completion_tokens;
  latency_ms = latency_ms;
  estimated_cost =
      pricing.input_cost_per_1m * usage.prompt_tokens
      + pricing.output_cost_per_1m * usage.completion_tokens;
}

-- The log line apart.
unfoldable pub emit_metric : UsageRecord → Metrics → Metrics
emit_metric = record_usage

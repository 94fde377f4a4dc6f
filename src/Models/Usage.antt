-- ===== src/Models/Usage.antt =====
-- src/llm_gateway/models/usage.py. A cost is in units of 10^-8 dollars, in which the products of
-- prices and token counts are whole.
use myown_llm_gateway.Base.{ℕ, String}

pub record UsageRecord : Type 0 where
  pub virtual_key_id : ℕ
  pub provider : String
  pub model : String
  pub input_tokens : ℕ
  pub output_tokens : ℕ
  pub latency_ms : ℕ
  pub estimated_cost : ℕ

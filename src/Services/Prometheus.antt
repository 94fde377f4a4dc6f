-- ===== src/Services/Prometheus.antt =====
-- src/llm_gateway/services/prometheus_metrics.py: the counters, and the labels that they take.
pub mod Labels
use Prim.Native.String.{◌++◌ as concat}
use myown_llm_gateway.Base.{
  ℕ, suc, ◌+◌, String, Bool, true, false, ◌&&◌, ◌||◌, Option, none, some, List, [], ◌∷◌, length,
  leb, str_eq, if◌then◌else◌,
}
use myown_llm_gateway.Base.Dict.{contains}
use myown_llm_gateway.Models.Usage.{UsageRecord}

-- A series is a list of label values, in the order of the counter's label names.
abbrev pub Labels : Type 0
Labels = List String

abbrev pub same_labels : Labels → Labels → Bool
same_labels [] [] = true
same_labels (x ∷ xs) (y ∷ ys) = str_eq x y && same_labels xs ys
same_labels _ _ = false

abbrev pub Counter : Type 0
Counter = List (Labels × ℕ)

-- `COUNTER.labels(...).inc(n)`: a series is made at its first increment
unfoldable pub inc : Labels → ℕ → Counter → Counter
inc labels n [] = (labels, n) ∷ []
inc labels n (e ∷ es) = if same_labels labels e.0 then (e.0, e.1 + n) ∷ es else e ∷ inc labels n es

-- The module's registry. The histogram keeps the number and the sum of the latencies.
pub record Metrics : Type 0 where
  pub requests : Counter
  pub tokens : Counter
  pub cost : Counter
  pub latency_count : Counter
  pub latency_sum : Counter
  pub cache_events : Counter
  pub served_models : List String

abbrev pub no_metrics : Metrics
no_metrics = record {
  requests = [];
  tokens = [];
  cost = [];
  latency_count = [];
  latency_sum = [];
  cache_events = [];
  served_models = [];
}

-- `_safe`
unfoldable pub safe : String → String
safe value = if str_eq value "" then "unknown" else value

abbrev pub max_tracked_models : ℕ
max_tracked_models = 50

-- `_remember_model`
unfoldable pub remember_model : String → List String → List String
remember_model model served =
    if contains model served || leb max_tracked_models (length served)
    then served
    else model ∷ served

-- `_model_label`
unfoldable pub model_label : List String → String → String
model_label served model =
    if str_eq model "" then "unknown" else if contains model served then model else "unknown"

unfoldable pub record_usage : UsageRecord → Metrics → Metrics
record_usage r m =
    let provider = safe r.provider in
    let model = safe r.model in
    record m {
      requests = inc (provider ∷ model ∷ "ok" ∷ []) 1 m.requests;
      tokens =
          inc (provider ∷ "output" ∷ []) r.output_tokens
            (inc (provider ∷ "input" ∷ []) r.input_tokens m.tokens);
      cost = inc (provider ∷ []) r.estimated_cost m.cost;
      latency_count = inc (provider ∷ []) 1 m.latency_count;
      latency_sum = inc (provider ∷ []) r.latency_ms m.latency_sum;
      served_models = remember_model model m.served_models;
    }

unfoldable pub record_failure : String → String → String → Metrics → Metrics
record_failure provider model error_type m = record m {
  requests =
      inc (safe provider ∷ model_label m.served_models model ∷ concat "error:" error_type ∷ []) 1
        m.requests;
}

unfoldable pub record_cache_event : String → Metrics → Metrics
record_cache_event result m = record m { cache_events = inc (result ∷ []) 1 m.cache_events }

-- ===== src/Services/Usage.antt =====
-- src/llm_gateway/services/usage.py: usage rows are written by tasks that run after the response.
pub mod Spending
use myown_llm_gateway.Base.{ℕ, String, Bool, true, false, Option, none, List, [], ◌∷◌, ◌++◌}
use myown_llm_gateway.Models.Usage.{UsageRecord}
use myown_llm_gateway.Storage.Orm.{ok, Database}
use myown_llm_gateway.Storage.Repositories.{UsageLogData, create_usage_log, create_failed_usage_log}
use myown_llm_gateway.Services.Prometheus.{Metrics, record_failure}
use myown_llm_gateway.Services.Metrics.{emit_metric}

-- A coroutine that was handed to `_fire_and_forget`.
pub data Task : Type 0 where
  persist : UsageRecord → Task
  -- key, provider, model, latency and type of error
  persist_failed : ℕ → String → String → ℕ → String → Task

-- What the services change: the counters, and the tasks that have not run.
pub record Effects : Type 0 where
  pub metrics : Metrics
  pub pending : List Task

unfoldable pub fire_and_forget : Task → Effects → Effects
fire_and_forget task e = record e { pending = e.pending ++ task ∷ [] }

unfoldable pub record_failed_request : ℕ → String → String → ℕ → String → Effects → Effects
unfolding fire_and_forget
record_failed_request virtual_key_id provider model latency_ms error_type e =
    fire_and_forget (persist_failed virtual_key_id provider model latency_ms error_type)
      (record e { metrics = record_failure provider model error_type e.metrics })

-- `emit_metric(record)` and the task that persists it, with which every served request ends
unfoldable pub record_served : UsageRecord → Effects → Effects
unfolding fire_and_forget
record_served r e = fire_and_forget (persist r) (record e { metrics = emit_metric r e.metrics })

abbrev pub log_data : UsageRecord → UsageLogData
log_data r = record {
  virtual_key_id = r.virtual_key_id;
  provider = r.provider;
  model = r.model;
  input_tokens = r.input_tokens;
  output_tokens = r.output_tokens;
  latency_ms = r.latency_ms;
  estimated_cost = r.estimated_cost;
  status = ok;
  error_type = none;
}

-- A task runs in its turn. If the database fails, the row is lost and nothing else happens: one
-- task catches the exception, the other ends by it.
unfoldable pub run_task : (ℕ → ℕ) → Bool → Task → Database → Database
run_task stored false task db = db
run_task stored true (persist r) db = create_usage_log stored (log_data r) db
run_task stored true (persist_failed key provider model latency kind) db =
    create_failed_usage_log key provider model latency kind db

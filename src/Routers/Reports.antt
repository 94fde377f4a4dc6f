-- ===== src/Routers/Reports.antt =====
-- src/llm_gateway/routers/usage.py and src/llm_gateway/routers/logs.py: what a client reads of its
-- spending and of the log, once the request is authenticated.
use myown_llm_gateway.Base.{
  ℕ, ◌+◌, String, Bool, false, Option, none, some, List, map, leb, ◌&&◌, ◌||◌, if◌then◌else◌,
}
use myown_llm_gateway.Storage.Orm.{Status, UsageLog, Database}
use myown_llm_gateway.Storage.Repositories.{
  get_key_by_id, get_key_spend_usd, get_global_spend_usd, LogFilter, list_usage_logs,
  count_usage_logs,
}
use myown_llm_gateway.Routers.Chat.Guards.{key_limit, enforce_spend_cap}
use myown_llm_gateway.Routers.Chat.Caps.{Decides, is_reached, is_capped, enforce_spend_cap-Decides}

pub record SpendReport : Type 0 where
  pub virtual_key_id : ℕ
  pub spend_usd : ℕ
  pub limit_usd : Option ℕ
  pub global_spend_usd : Option ℕ
  pub global_limit_usd : Option ℕ

-- `get_spend`: the global spending is read when there is a global limit.
unfoldable pub get_spend : Option ℕ → ℕ → Database → SpendReport
get_spend global_limit virtual_key_id db = record {
  virtual_key_id = virtual_key_id;
  spend_usd = get_key_spend_usd virtual_key_id db;
  limit_usd = key_limit (get_key_by_id virtual_key_id db);
  global_spend_usd = elim global_limit [
    | none ↦ none
    | some limit ↦ some (get_global_spend_usd db)
  ];
  global_limit_usd = global_limit;
}

pub record LogEntry : Type 0 where
  pub id : ℕ
  pub provider : String
  pub model : String
  pub input_tokens : ℕ
  pub output_tokens : ℕ
  pub total_tokens : ℕ
  pub latency_ms : ℕ
  pub estimated_cost : ℕ
  pub status : Status
  pub error_type : Option String

abbrev log_entry : UsageLog → LogEntry
log_entry log = record {
  id = log.id;
  provider = log.provider;
  model = log.model;
  input_tokens = log.input_tokens;
  output_tokens = log.output_tokens;
  total_tokens = log.input_tokens + log.output_tokens;
  latency_ms = log.latency_ms;
  estimated_cost = log.estimated_cost;
  status = log.status;
  error_type = log.error_type;
}

pub record LogPage : Type 0 where
  pub total : ℕ
  pub logs : List LogEntry

-- `list_logs`; `none` is a limit out of its bounds.
unfoldable list_logs : ℕ → ℕ → LogFilter → Database → Option LogPage
list_logs limit offset f db =
    if leb 1 limit && leb limit 500
    then some (record {
      total = count_usage_logs f db;
      logs = map log_entry (list_usage_logs limit f offset db);
    })
    else none

-- The limit of the report is set and reached by the spending of the report.
abbrev pub reported : Option ℕ → Option ℕ → Bool
reported limit none = false
reported limit (some spent) = is_reached limit spent

-- The report tells whether the next request is let through: `enforce_spend_cap` refuses with a 429
-- exactly when one of the report's two limits is set and reached by the spending beside it.
pub get_spend-enforce_spend_cap :
    (global_limit : Option ℕ) (key : ℕ) (db : Database)
    → let r = get_spend global_limit key db in
      Decides
        (is_reached r.limit_usd r.spend_usd || reported r.global_limit_usd r.global_spend_usd)
        (enforce_spend_cap global_limit key db)
        key
unfolding get_spend is_capped
get_spend-enforce_spend_cap none key db = enforce_spend_cap-Decides none key db
get_spend-enforce_spend_cap (some limit) key db = enforce_spend_cap-Decides (some limit) key db

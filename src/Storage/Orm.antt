-- ===== src/Storage/Orm.antt =====
-- src/llm_gateway/storage/orm.py: the rows, and the database as its three tables. Times are in
-- microseconds; a cost and a spend limit are in units of 10^-8 dollars.
use myown_llm_gateway.Base.{ℕ, String, Bool, Option, List, []}
use myown_llm_gateway.Base.Text.{Text}

pub record ApiKey : Type 0 where
  pub id : ℕ
  pub hashed_key : String
  pub client_name : Text
  pub is_active : Bool
  pub spend_limit_usd : Option ℕ
  pub expires_at : Option ℕ
  pub created_at : ℕ

-- The two values of `usage_logs.status` that are written.
pub data Status : Type 0 where
  ok error : Status

pub record UsageLog : Type 0 where
  pub id : ℕ
  pub virtual_key_id : ℕ
  pub provider : String
  pub model : String
  pub input_tokens : ℕ
  pub output_tokens : ℕ
  pub latency_ms : ℕ
  pub estimated_cost : ℕ
  pub status : Status
  pub error_type : Option String

-- The text of `detail`: `expires_at=` with a time, `spend_limit_usd=` with a limit, or both.
pub data AuditDetail : Type 0 where
  expiry_set : ℕ → AuditDetail
  limit_set : ℕ → AuditDetail
  expiry_and_limit_set : ℕ → ℕ → AuditDetail

pub record AuditLog : Type 0 where
  pub action : String
  pub virtual_key_id : ℕ
  pub client_name : Text
  pub detail : Option AuditDetail

-- Rows stand in the order of their insertion; the counters are those of `autoincrement`.
pub record Database : Type 0 where
  pub api_keys : List ApiKey
  pub usage_logs : List UsageLog
  pub audit_logs : List AuditLog
  pub next_key_id : ℕ
  pub next_log_id : ℕ

abbrev pub empty_database : Database
empty_database = record {
  api_keys = [];
  usage_logs = [];
  audit_logs = [];
  next_key_id = 1;
  next_log_id = 1;
}

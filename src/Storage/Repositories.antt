-- ===== src/Storage/Repositories.antt =====
-- src/llm_gateway/storage/repositories.py: each function in its transaction. What the column type
-- `Numeric(12, 6)` makes of a cost is the database's, and is the parameter `stored`.
pub mod Spend
pub mod Pages
pub mod Keys
use myown_llm_gateway.Base.{
  ℕ, suc, ◌+◌, String, Bool, true, false, Option, none, some, List, [], ◌∷◌, ◌++◌, ◌&&◌, length,
  filter, take, drop, ◌==◌, str_eq, if◌then◌else◌,
}
use myown_llm_gateway.Base.Int.{ℤ, pos, neg}
use myown_llm_gateway.Base.Text.{Text}
use myown_llm_gateway.Base.Sort.{sort_by}
use myown_llm_gateway.Storage.Orm.{
  ApiKey, Status, ok, error, UsageLog, AuditLog, AuditDetail, Database,
}

abbrev pub first {ℓ} : {A : Type ℓ} → List A → Option A
first [] = none
first (x ∷ xs) = some x

-- `hashed_key` is unique, so the first row that matches is the only one.
unfoldable pub get_key_by_hash : String → Database → Option ApiKey
get_key_by_hash key_hash db = first (filter (λ k. str_eq k.hashed_key key_hash) db.api_keys)

unfoldable pub get_key_by_id : ℕ → Database → Option ApiKey
get_key_by_id key_id db = first (filter (λ k. k.id == key_id) db.api_keys)

abbrev pub is_ok : Status → Bool
is_ok ok = true
is_ok error = false

-- `coalesce(sum(estimated_cost), 0)`
abbrev pub sum_cost : List UsageLog → ℕ
sum_cost [] = 0
sum_cost (l ∷ ls) = l.estimated_cost + sum_cost ls

unfoldable pub get_key_spend_usd : ℕ → Database → ℕ
get_key_spend_usd key_id db =
    sum_cost (filter (λ l. l.virtual_key_id == key_id && is_ok l.status) db.usage_logs)

unfoldable pub get_global_spend_usd : Database → ℕ
get_global_spend_usd db = sum_cost (filter (λ l. is_ok l.status) db.usage_logs)

pub record UsageLogData : Type 0 where
  pub virtual_key_id : ℕ
  pub provider : String
  pub model : String
  pub input_tokens : ℕ
  pub output_tokens : ℕ
  pub latency_ms : ℕ
  pub estimated_cost : ℕ
  pub status : Status
  pub error_type : Option String

unfoldable pub create_usage_log : (ℕ → ℕ) → UsageLogData → Database → Database
create_usage_log stored d db = record db {
  usage_logs =
      db.usage_logs
      ++ record {
        id = db.next_log_id;
        virtual_key_id = d.virtual_key_id;
        provider = d.provider;
        model = d.model;
        input_tokens = d.input_tokens;
        output_tokens = d.output_tokens;
        latency_ms = d.latency_ms;
        estimated_cost = stored d.estimated_cost;
        status = d.status;
        error_type = d.error_type;
      }
        ∷ [];
  next_log_id = suc db.next_log_id;
}

-- A failed request has no tokens and no cost.
unfoldable pub create_failed_usage_log : ℕ → String → String → ℕ → String → Database → Database
create_failed_usage_log virtual_key_id provider model latency_ms error_type db = record db {
  usage_logs =
      db.usage_logs
      ++ record {
        id = db.next_log_id;
        virtual_key_id = virtual_key_id;
        provider = provider;
        model = model;
        input_tokens = 0;
        output_tokens = 0;
        latency_ms = latency_ms;
        estimated_cost = 0;
        status = error;
        error_type = some error_type;
      }
        ∷ [];
  next_log_id = suc db.next_log_id;
}

-- The optional filters of the two queries below.
pub record LogFilter : Type 0 where
  pub status : Option Status
  pub model : Option String
  pub provider : Option String

abbrev same_status : Status → Status → Bool
same_status ok ok = true
same_status error error = true
same_status _ _ = false

abbrev by_status : Option Status → UsageLog → Bool
by_status none l = true
by_status (some s) l = same_status l.status s

abbrev by_text : Option String → String → Bool
by_text none v = true
by_text (some s) v = str_eq v s

abbrev pub matches : LogFilter → UsageLog → Bool
matches f l = by_status f.status l && (by_text f.model l.model && by_text f.provider l.provider)

-- `order_by(UsageLog.id.desc()).limit(limit).offset(offset)`
unfoldable pub list_usage_logs : ℕ → LogFilter → ℕ → Database → List UsageLog
list_usage_logs limit f offset db =
    take limit (drop offset (sort_by (λ l. neg (pos l.id)) (filter (matches f) db.usage_logs)))

unfoldable pub count_usage_logs : LogFilter → Database → ℕ
count_usage_logs f db = length (filter (matches f) db.usage_logs)

-- `order_by(ApiKey.id)`
unfoldable pub list_keys : Database → List ApiKey
list_keys db = sort_by (λ k. pos k.id) db.api_keys

-- `key.is_active = False` on the row with the id
abbrev pub switch_off : ℕ → List ApiKey → List ApiKey
switch_off key_id [] = []
switch_off key_id (k ∷ ks) =
    (if k.id == key_id then record k { is_active = false } else k) ∷ switch_off key_id ks

unfoldable pub deactivate_key : ℕ → Database → Option ApiKey × Database
unfolding get_key_by_id
deactivate_key key_id db = elim (get_key_by_id key_id db) [
  | none ↦ (none, db)
  | some key ↦ (
    some (record key { is_active = false }),
    record db { api_keys = switch_off key_id db.api_keys },
  )
]

unfoldable pub create_audit_log : String → ℕ → Text → Option AuditDetail → Database → Database
create_audit_log action virtual_key_id client_name detail db = record db {
  audit_logs =
      db.audit_logs
      ++ record {
        action = action;
        virtual_key_id = virtual_key_id;
        client_name = client_name;
        detail = detail;
      }
        ∷ [];
}

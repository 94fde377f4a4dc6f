-- ===== src/Storage/Repositories/Spend.antt =====
-- src/llm_gateway/storage/repositories.py: the spending after a write to the log.
use myown_llm_gateway.Base.{
  ℕ, ◌+◌, String, Bool, List, [], ◌∷◌, ◌++◌, ◌&&◌, filter, filter-append, ◌==◌, if◌then◌else◌, ◌≡◌,
  arith, ◌∙◌, ap,
}
use myown_llm_gateway.Storage.Orm.{UsageLog, Database}
use myown_llm_gateway.Storage.Repositories.{
  is_ok, sum_cost, get_key_spend_usd, get_global_spend_usd, UsageLogData, create_usage_log,
  create_failed_usage_log,
}

sum_cost-append : (xs ys : List UsageLog) → sum_cost (xs ++ ys) ≡ sum_cost xs + sum_cost ys
sum_cost-append [] ys = omega arith
sum_cost-append (x ∷ xs) ys = omega (arith, sum_cost-append xs ys)

-- Adding one row adds its cost, if it passes the filter.
sum_cost-filter :
    (p : UsageLog → Bool) (xs : List UsageLog) (l : UsageLog)
    → sum_cost (filter p (xs ++ l ∷ []))
      ≡ sum_cost (filter p xs) + (if p l then l.estimated_cost else 0)
sum_cost-filter p xs l =
    ap sum_cost (filter-append p xs (l ∷ []))
    ∙ sum_cost-append (filter p xs) (filter p (l ∷ []))
    ∙ ground arith

-- A usage row raises the spending of its own key, and the global spending, by its stored cost if
-- its status is "ok", and changes no other key's spending; a row of another status changes none.
pub spend-create_usage_log :
    (stored : ℕ → ℕ) (d : UsageLogData) (key_id : ℕ) (db : Database)
    → let cost = if is_ok d.status then stored d.estimated_cost else 0 in
      (get_key_spend_usd key_id (create_usage_log stored d db)
        ≡ get_key_spend_usd key_id db + (if d.virtual_key_id == key_id then cost else 0))
      × (get_global_spend_usd (create_usage_log stored d db) ≡ get_global_spend_usd db + cost)
unfolding get_key_spend_usd get_global_spend_usd create_usage_log
spend-create_usage_log stored d key_id db = (
  sum_cost-filter (λ l. l.virtual_key_id == key_id && is_ok l.status) db.usage_logs _
      ∙ ground arith,
  sum_cost-filter (λ l. is_ok l.status) db.usage_logs _,
)

pub spend-create_failed_usage_log :
    (id : ℕ) (provider model : String) (latency : ℕ) (kind : String) (key_id : ℕ) (db : Database)
    → let db' = create_failed_usage_log id provider model latency kind db in
      (get_key_spend_usd key_id db' ≡ get_key_spend_usd key_id db)
      × (get_global_spend_usd db' ≡ get_global_spend_usd db)
unfolding get_key_spend_usd get_global_spend_usd create_failed_usage_log
spend-create_failed_usage_log id provider model latency kind key_id db = (
  sum_cost-filter (λ l. l.virtual_key_id == key_id && is_ok l.status) db.usage_logs _
      ∙ ground arith,
  sum_cost-filter (λ l. is_ok l.status) db.usage_logs _ ∙ omega arith,
)

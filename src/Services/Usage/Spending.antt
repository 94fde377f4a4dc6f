-- ===== src/Services/Usage/Spending.antt =====
-- src/llm_gateway/services/usage.py: runs of the tasks, and the spending of the keys.
use myown_llm_gateway.Base.{
  ℕ, ◌+◌, Bool, true, false, List, [], ◌∷◌, ◌==◌, if◌then◌else◌, ◌≡◌, arith,
}
use myown_llm_gateway.Storage.Orm.{Database}
use myown_llm_gateway.Storage.Repositories.{
  get_key_spend_usd, create_usage_log, create_failed_usage_log,
}
use myown_llm_gateway.Storage.Repositories.Spend.{
  spend-create_usage_log, spend-create_failed_usage_log,
}
use myown_llm_gateway.Services.Usage.{Task, persist, persist_failed, log_data, run_task}

-- The tasks in their turn, each with whether the database is up.
abbrev pub run_all : (ℕ → ℕ) → List (Bool × Task) → Database → Database
run_all stored [] db = db
run_all stored ((up, task) ∷ tasks) db = run_all stored tasks (run_task stored up task db)

-- What the tasks that reach the database charge to a key.
abbrev pub charged : (ℕ → ℕ) → ℕ → List (Bool × Task) → ℕ
charged stored key [] = 0
charged stored key ((true, persist r) ∷ tasks) =
    (if r.virtual_key_id == key then stored r.estimated_cost else 0) + charged stored key tasks
charged stored key ((true, persist_failed k p m l e) ∷ tasks) = charged stored key tasks
charged stored key ((false, task) ∷ tasks) = charged stored key tasks

-- After any tasks, of served and of failed requests, with the database up or down at each, a key's
-- spending is what it was, and the stored cost of each record of this key that was written.
pub spend-run_all :
    (stored : ℕ → ℕ) (key : ℕ) (tasks : List (Bool × Task)) (db : Database)
    → get_key_spend_usd key (run_all stored tasks db)
      ≡ get_key_spend_usd key db + charged stored key tasks
unfolding run_task
spend-run_all stored key [] db = omega arith
spend-run_all stored key ((true, persist r) ∷ tasks) db = omega (
  arith,
  spend-run_all stored key tasks (create_usage_log stored (log_data r) db),
  (spend-create_usage_log stored (log_data r) key db).0,
)
spend-run_all stored key ((true, persist_failed k p m l e) ∷ tasks) db = omega (
  arith,
  spend-run_all stored key tasks (create_failed_usage_log k p m l e db),
  (spend-create_failed_usage_log k p m l e key db).0,
)
spend-run_all stored key ((false, task) ∷ tasks) db =
    omega (arith, spend-run_all stored key tasks db)

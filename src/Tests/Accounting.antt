-- ===== src/Tests/Accounting.antt =====
-- The database, the counters and the revocation of keys on concrete rows.
use mathlib.Core.List.{Perm}
use myown_llm_gateway.Base.{
  ℕ, ◌+◌, String, Bool, true, false, Option, none, some, List, [], ◌∷◌, ◌≡◌, ◌≢◌, ◌||◌,
  if◌then◌else◌, refl, ap, arith, length, filter,
}
use myown_llm_gateway.Base.Int.{pos, neg}
use myown_llm_gateway.Base.Sort.{IsSortedBy}
use myown_llm_gateway.Base.Text.{Text, codes, strip, lstrip, rstrip, starts_with}
use myown_llm_gateway.Core.Exceptions.{Result, raise, invalid_virtual_key}
use myown_llm_gateway.Routers.Keys.{KeyCreate, new_row, create_key}
use myown_llm_gateway.Routers.Keys.Created.{authenticate-create_key}
use myown_llm_gateway.Routers.Chat.Guards.{enforce_spend_cap}
use myown_llm_gateway.Routers.Reports.{reported, get_spend, get_spend-enforce_spend_cap}
use myown_llm_gateway.Routers.Chat.Caps.{is_reached, Decides, is_capped, enforce_spend_cap-Decides}
use myown_llm_gateway.Core.Security.{check_record, authenticate_virtual_key, is_expired}
use myown_llm_gateway.Routers.Http.{reply}
use myown_llm_gateway.Routers.Chat.Auth.{bearer_key, authenticate_request}
use myown_llm_gateway.Models.Usage.{UsageRecord}
use myown_llm_gateway.Storage.Orm.{ApiKey, Database, empty_database}
use myown_llm_gateway.Storage.Repositories.{
  get_key_by_hash, get_key_spend_usd, get_global_spend_usd, create_usage_log, deactivate_key,
  create_failed_usage_log, LogFilter, matches, count_usage_logs,
}
use myown_llm_gateway.Storage.Repositories.Spend.{spend-create_usage_log}
use myown_llm_gateway.Storage.Repositories.Pages.{pages, pages_complete}
use myown_llm_gateway.Storage.Repositories.Keys.{accepted, except, authenticate-deactivate_key}
use myown_llm_gateway.Services.Prometheus.{no_metrics}
use myown_llm_gateway.Services.Prometheus.Labels.{
  Event, usage, failure, observe_all, IsBounded, observe_all-IsBounded,
}
use myown_llm_gateway.Services.Usage.{Task, persist, persist_failed, log_data, run_task}
use myown_llm_gateway.Tests.Samples.{size}
use myown_llm_gateway.Services.Usage.Spending.{run_all, charged, spend-run_all}

abbrev served : UsageRecord
served = record {
  virtual_key_id = 1;
  provider = "openai";
  model = "m";
  input_tokens = 10;
  output_tokens = 20;
  latency_ms = 5;
  estimated_cost = 750;
}

spend-create_usage_log_example :
    (get_key_spend_usd 1 (create_usage_log (λ c. c) (log_data served) empty_database)
      ≡ get_key_spend_usd 1 empty_database + 750)
    × (get_global_spend_usd (create_usage_log (λ c. c) (log_data served) empty_database)
        ≡ get_global_spend_usd empty_database + 750)
spend-create_usage_log_example = spend-create_usage_log (λ c. c) (log_data served) 1 empty_database

-- One row is written, one is lost, and one is of a failure.
abbrev tasks : List (Bool × Task)
tasks =
    (true, persist served)
    ∷ (false, persist served)
    ∷ (true, persist_failed 1 "" "m" 5 "upstream_error")
    ∷ []

spent : get_key_spend_usd 1 (run_all (λ c. c) tasks empty_database) ≡ 750
unfolding get_key_spend_usd create_usage_log create_failed_usage_log
spent = spend-run_all (λ c. c) 1 tasks empty_database

spend-run_all_example :
    get_key_spend_usd 1 (run_all (λ c. c) tasks empty_database)
    ≡ get_key_spend_usd 1 empty_database + charged (λ c. c) 1 tasks
spend-run_all_example = spend-run_all (λ c. c) 1 tasks empty_database

abbrev all_logs : LogFilter
all_logs = record { status = none; model = none; provider = none }

abbrev two_logs : Database
two_logs = run_all (λ c. c) ((true, persist served) ∷ (true, persist served) ∷ []) empty_database

pages_complete_example :
    Perm (pages 2 1 all_logs two_logs) (filter (matches all_logs) two_logs.usage_logs)
    × IsSortedBy (λ l. neg (pos l.id)) (pages 2 1 all_logs two_logs)
    × (length (pages 2 1 all_logs two_logs) ≡ count_usage_logs all_logs two_logs)
pages_complete_example =
    pages_complete 2 1 all_logs two_logs
      (unfold count_usage_logs create_usage_log run_task in omega arith)

abbrev key_row : ApiKey
key_row = record {
  id = 1;
  hashed_key = "h";
  client_name = codes "client";
  is_active = true;
  spend_limit_usd = none;
  expires_at = none;
  created_at = 0;
}

abbrev one_key : Database
one_key = record empty_database { api_keys = key_row ∷ [] }

authenticate-deactivate_key_example :
    let after = (deactivate_key 1 one_key).1 in
    accepted (authenticate_virtual_key (λ raw. "h") [] (λ h. get_key_by_hash h after) 5)
    ≡ except 1
        (accepted (authenticate_virtual_key (λ raw. "h") [] (λ h. get_key_by_hash h one_key) 5))
authenticate-deactivate_key_example = authenticate-deactivate_key (λ raw. "h") [] 1 5 one_key

abbrev events : List Event
events =
    failure "" "forged" "upstream_error" ∷ usage served ∷ failure "openai" "m" "timeout_error" ∷ []

observe_all-IsBounded_example : IsBounded (observe_all events no_metrics)
observe_all-IsBounded_example =
    observe_all-IsBounded events no_metrics (record { known = tt; few = omega arith })

-- The key's limit is what one request costs.
abbrev capped_key : Database
capped_key = record empty_database {
  api_keys = (record key_row { spend_limit_usd = some 750 }) ∷ [];
}

abbrev after_one : Database
after_one = run_all (λ c. c) ((true, persist served) ∷ []) capped_key

enforce_spend_cap-Decides_example :
    Decides (is_capped none 1 after_one) (enforce_spend_cap none 1 after_one) 1
enforce_spend_cap-Decides_example = enforce_spend_cap-Decides none 1 after_one

-- A hash that tells the empty text from the others.
abbrev toy_hash : Text → String
toy_hash [] = ""
toy_hash (c ∷ s) = "other"

abbrev payload : KeyCreate
payload = record { client_name = codes "app"; expires_in_days = some 90; spend_limit_usd = none }

hashes_differ : toy_hash [] ≢ toy_hash (codes "sk-1")
hashes_differ e = let sizes : ◌≡◌ {A = ℕ} 0 5 = ap size e in omega (arith, sizes)

authenticate-create_key_example :
    let (created, db') = create_key toy_hash (λ c. c) payload (codes "sk-1") 5 empty_database in
    let row = new_row toy_hash (λ c. c) payload (codes "sk-1") created.id 5 in
    (authenticate_virtual_key toy_hash (codes "sk-1") (λ h. get_key_by_hash h db') 10 ≡ (
      if is_expired created.expires_at 10
      then raise (invalid_virtual_key "Virtual API key has expired.")
      else Result.ok row))
    × (authenticate_virtual_key toy_hash [] (λ h. get_key_by_hash h db') 10
        ≡ authenticate_virtual_key toy_hash [] (λ h. get_key_by_hash h empty_database) 10)
authenticate-create_key_example =
    authenticate-create_key toy_hash (λ c. c) payload (codes "sk-1") [] 5 10 empty_database
      (unfold get_key_by_hash in refl) hashes_differ

get_spend-enforce_spend_cap_example :
    let r = get_spend (some 5) 1 after_one in
    Decides
      (is_reached r.limit_usd r.spend_usd || reported r.global_limit_usd r.global_spend_usd)
      (enforce_spend_cap (some 5) 1 after_one)
      1
get_spend-enforce_spend_cap_example = get_spend-enforce_spend_cap (some 5) 1 after_one

-- A header with the key, whose hash is that of the row.
abbrev header : Option Text
header = some (codes "Bearer sk-1 ")

abbrev keyed : Database
keyed = record empty_database {
  api_keys = (record key_row { hashed_key = toy_hash (codes "sk-1") }) ∷ [];
}

let_through : authenticate_request toy_hash header 5 keyed ≡ reply 1
unfolding authenticate_request bearer_key strip lstrip rstrip starts_with get_key_by_hash
    authenticate_virtual_key check_record is_expired
let_through = refl

-- ===== src/Tests/Commands.antt =====
-- cli.py on concrete arguments.
use myown_llm_gateway.Base.{false, not, none, some, ◌≡◌, refl}
use myown_llm_gateway.Base.Int.{pos}
use myown_llm_gateway.Base.Text.{codes}
use myown_llm_gateway.Storage.Orm.{empty_database}
use myown_llm_gateway.Routers.Models.Owners.{is_reply}
use myown_llm_gateway.Routers.Keys.{
  KeyCreate, create_key as route_create_key, revoke_key as route_revoke_key,
}
use myown_llm_gateway.Cli.{expires_in_days_of, create_key, revoke_key}
use myown_llm_gateway.Cli.Agreement.{create_key_agrees}

-- Zero days are taken as the default.
zero_days : expires_in_days_of false (some (pos 0)) ≡ some (some (pos 90))
unfolding expires_in_days_of
zero_days = refl

abbrev payload : KeyCreate
payload = record { client_name = codes "app"; expires_in_days = some 90; spend_limit_usd = none }

create_key_agrees_example :
    let by_command =
      create_key
        (λ raw. "h")
        (λ c. c)
        (codes "app")
        (some (pos 90))
        none
        (codes "sk-1")
        5
        empty_database in
    let by_endpoint =
      (route_create_key (λ raw. "h") (λ c. c) payload (codes "sk-1") 5 empty_database).1 in
    (by_command.api_keys ≡ by_endpoint.api_keys)
    × (by_command.usage_logs ≡ by_endpoint.usage_logs)
    × (by_command.next_key_id ≡ by_endpoint.next_key_id)
    × (not (revoke_key 1 empty_database).0 ≡ is_reply (route_revoke_key 1 empty_database).0)
    × ((revoke_key 1 empty_database).1 ≡ (route_revoke_key 1 empty_database).1)
create_key_agrees_example =
    create_key_agrees (λ raw. "h") (λ c. c) payload (codes "sk-1") 5 1 empty_database

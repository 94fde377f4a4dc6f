-- ===== src/Cli/Agreement.antt =====
-- src/llm_gateway/cli.py beside src/llm_gateway/routers/keys.py.
use myown_llm_gateway.Base.{ℕ, String, not, Option, none, some, ◌≡◌, refl}
use myown_llm_gateway.Base.Int.{ℤ, pos}
use myown_llm_gateway.Base.Text.{Text}
use myown_llm_gateway.Storage.Orm.{ApiKey, Database}
use myown_llm_gateway.Storage.Repositories.{deactivate_key, create_audit_log}
use myown_llm_gateway.Routers.Models.Owners.{is_reply}
use myown_llm_gateway.Routers.Keys.{
  KeyCreate, expiry, create_key as route_create_key, audit_revocation,
  revoke_key as route_revoke_key,
}
use myown_llm_gateway.Cli.{expiry_of, create_key, finish_revocation, revoke_key}

-- The days that the command line is given for the days of a payload.
abbrev as_days : Option ℕ → Option ℤ
as_days none = none
as_days (some days) = some (pos days)

expiry_of-as_days : (days : Option ℕ) (now : ℕ) → expiry_of (as_days days) now ≡ expiry days now
expiry_of-as_days none now = refl
expiry_of-as_days (some days) now = refl

revocation_agrees :
    (r : Option ApiKey × Database)
    → (not (finish_revocation r).0 ≡ is_reply (audit_revocation r).0)
      × ((finish_revocation r).1 ≡ (audit_revocation r).1)
unfolding finish_revocation audit_revocation
revocation_agrees (none, db) = (refl, refl)
revocation_agrees (some key, db) = (refl, refl)

-- For the same name, days, limit and raw key, the command and the endpoint leave the same rows of
-- keys and of usage, and the same next id; and revoking an id leaves the same database by either,
-- the command succeeding exactly when the endpoint has no 404.
pub create_key_agrees :
    (hash : Text → String) (stored : ℕ → ℕ) (payload : KeyCreate) (raw_key : Text) (now key_id : ℕ)
    (db : Database)
    → let by_command =
        create_key hash stored payload.client_name
          (as_days payload.expires_in_days)
          payload.spend_limit_usd
          raw_key
          now
          db in
      let by_endpoint = (route_create_key hash stored payload raw_key now db).1 in
      (by_command.api_keys ≡ by_endpoint.api_keys)
      × (by_command.usage_logs ≡ by_endpoint.usage_logs)
      × (by_command.next_key_id ≡ by_endpoint.next_key_id)
      × (not (revoke_key key_id db).0 ≡ is_reply (route_revoke_key key_id db).0)
      × ((revoke_key key_id db).1 ≡ (route_revoke_key key_id db).1)
unfolding create_key route_create_key revoke_key route_revoke_key create_audit_log
create_key_agrees hash stored payload raw_key now key_id db =
    let (exits, same) = revocation_agrees (deactivate_key key_id db) in
    (rw (expiry_of-as_days payload.expires_in_days now) refl, refl, refl, exits, same)

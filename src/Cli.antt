-- ===== src/Cli.antt =====
-- src/llm_gateway/cli.py: the commands on virtual keys, less what they print. A time before the
-- epoch is the epoch, and a negative limit is taken as 0.
pub mod Agreement
use myown_llm_gateway.Base.{
  ℕ, zero, suc, ◌+◌, ◌*◌, ◌-◌, String, Bool, true, false, Option, none, some, ◌∷◌, [], ◌++◌,
}
use myown_llm_gateway.Base.Int.{ℤ, pos, negsuc}
use myown_llm_gateway.Base.Text.{Text}
use myown_llm_gateway.Storage.Orm.{
  ApiKey, AuditDetail, expiry_set, limit_set, expiry_and_limit_set, Database,
}
use myown_llm_gateway.Storage.Repositories.{deactivate_key, create_audit_log}
use myown_llm_gateway.Routers.Keys.{day, map_option}

abbrev default_key_expiry_days : ℤ
default_key_expiry_days = pos 90

-- `args.expires_in_days or DEFAULT_KEY_EXPIRY_DAYS`
abbrev or_default_days : Option ℤ → ℤ
or_default_days none = default_key_expiry_days
or_default_days (some (pos zero)) = default_key_expiry_days
or_default_days (some days) = days

-- The expiry that `main` takes from `--no-expiry` and `--expires-in-days`; `none` is the parser's
-- error.
unfoldable pub expires_in_days_of : Bool → Option ℤ → Option (Option ℤ)
expires_in_days_of true (some days) = none
expires_in_days_of true none = some none
expires_in_days_of false days = some (some (or_default_days days))

abbrev pub expiry_of : Option ℤ → ℕ → Option ℕ
expiry_of none now = none
expiry_of (some (pos days)) now = some (now + days * day)
expiry_of (some (negsuc days)) now = some (now - suc days * day)

-- `"; ".join(detail_parts) or None`
abbrev detail : Option ℕ → Option ℕ → Option AuditDetail
detail none none = none
detail (some expires_at) none = some (expiry_set expires_at)
detail none (some limit) = some (limit_set limit)
detail (some expires_at) (some limit) = some (expiry_and_limit_set expires_at limit)

module _ (hash : Text → String) (stored : ℕ → ℕ) where
  -- `_create_key`, with the raw key that it draws
  unfoldable pub create_key : Text → Option ℤ → Option ℕ → Text → ℕ → Database → Database
  create_key client_name expires_in_days spend_limit_usd raw_key now db =
      let expires_at = expiry_of expires_in_days now in
      let limit = map_option stored spend_limit_usd in
      create_audit_log "key_created" db.next_key_id client_name (detail expires_at limit)
        (record db {
          api_keys =
              db.api_keys
              ++ record {
                id = db.next_key_id;
                hashed_key = hash raw_key;
                client_name = client_name;
                is_active = true;
                spend_limit_usd = limit;
                expires_at = expires_at;
                created_at = now;
              }
                ∷ [];
          next_key_id = suc db.next_key_id;
        })

-- The end of `_revoke_key`: does it exit with 1, and the database.
unfoldable pub finish_revocation : Option ApiKey × Database → Bool × Database
finish_revocation (none, db) = (true, db)
finish_revocation (some key, db) =
    (false, create_audit_log "key_revoked" key.id key.client_name none db)

-- `_revoke_key`
unfoldable pub revoke_key : ℕ → Database → Bool × Database
unfolding finish_revocation
revoke_key key_id db = finish_revocation (deactivate_key key_id db)

-- ===== src/Routers/Keys.antt =====
-- src/llm_gateway/routers/keys.py: creating, listing and revoking virtual keys, once the request
-- is authenticated. A float of dollars is taken as units of 10^-8 dollars; `stored` is what the
-- column `Numeric(12, 2)` makes of it. The random raw key is an argument.
pub mod Created
use myown_llm_gateway.Base.{
  ℕ, suc, ◌+◌, ◌*◌, String, Bool, true, false, Option, none, some, List, [], ◌∷◌, ◌++◌, map, length,
  leb, ltb, null, not, ◌&&◌, if◌then◌else◌,
}
use myown_llm_gateway.Base.Text.{Text, strip}
use myown_llm_gateway.Base.Int.{ℤ, pos, pos_part, leb_ℤ}
use myown_llm_gateway.Storage.Orm.{ApiKey, AuditDetail, expiry_set, Database}
use myown_llm_gateway.Storage.Repositories.{list_keys, deactivate_key, create_audit_log}
use myown_llm_gateway.Routers.Http.{Http, reply, refuse, plain}

-- The body of `POST /api/keys`, as its validators leave it.
pub record KeyCreate : Type 0 where
  pub client_name : Text
  pub expires_in_days : Option ℕ
  pub spend_limit_usd : Option ℕ

abbrev in_range : Option ℤ → Bool
in_range none = true
in_range (some days) = leb_ℤ (pos 1) days && leb_ℤ days (pos 3650)

abbrev non_negative : Option ℤ → Bool
non_negative none = true
non_negative (some limit) = leb_ℤ (pos 0) limit

abbrev natural : Option ℤ → Option ℕ
natural none = none
natural (some n) = some (pos_part n)

-- The fields' bounds, then `_client_name_not_blank`; `none` is a `ValidationError`.
unfoldable key_create : Text → Option ℤ → Option ℤ → Option KeyCreate
key_create client_name expires_in_days spend_limit_usd =
    let stripped = strip client_name in
    if leb 1 (length client_name)
      && leb (length client_name) 120
      && not (null stripped)
      && in_range expires_in_days
      && non_negative spend_limit_usd
    then some (record {
      client_name = stripped;
      expires_in_days = natural expires_in_days;
      spend_limit_usd = natural spend_limit_usd;
    })
    else none

pub record KeySummary : Type 0 where
  pub id : ℕ
  pub client_name : Text
  pub is_active : Bool
  pub spend_limit_usd : Option ℕ
  pub created_at : ℕ
  pub expires_at : Option ℕ

pub record KeyCreated : Type 0 where
  pub id : ℕ
  pub client_name : Text
  pub api_key : Text
  pub spend_limit_usd : Option ℕ
  pub created_at : ℕ
  pub expires_at : Option ℕ

abbrev summary : ApiKey → KeySummary
summary key = record {
  id = key.id;
  client_name = key.client_name;
  is_active = key.is_active;
  spend_limit_usd = key.spend_limit_usd;
  created_at = key.created_at;
  expires_at = key.expires_at;
}

unfoldable get_keys : Database → List KeySummary
get_keys db = map summary (list_keys db)

-- A day, in microseconds.
abbrev pub day : ℕ
day = 86400000000

abbrev pub expiry : Option ℕ → ℕ → Option ℕ
expiry none now = none
expiry (some days) now = some (now + days * day)

abbrev pub map_option : (ℕ → ℕ) → Option ℕ → Option ℕ
map_option f none = none
map_option f (some n) = some (f n)

abbrev detail_of : Option ℕ → Option AuditDetail
detail_of none = none
detail_of (some expires_at) = some (expiry_set expires_at)

module _ (hash : Text → String) (stored : ℕ → ℕ) where
  -- The row that `create_key` adds.
  abbrev pub new_row : KeyCreate → Text → ℕ → ℕ → ApiKey
  new_row payload raw_key id now = record {
    id = id;
    hashed_key = hash raw_key;
    client_name = payload.client_name;
    is_active = true;
    spend_limit_usd = map_option stored payload.spend_limit_usd;
    expires_at = expiry payload.expires_in_days now;
    created_at = now;
  }

  unfoldable pub create_key : KeyCreate → Text → ℕ → Database → KeyCreated × Database
  create_key payload raw_key now db =
      let key = new_row payload raw_key db.next_key_id now in
      let committed = record db {
        api_keys = db.api_keys ++ key ∷ [];
        next_key_id = suc db.next_key_id;
      } in
      (
        record {
          id = key.id;
          client_name = key.client_name;
          api_key = raw_key;
          spend_limit_usd = key.spend_limit_usd;
          created_at = key.created_at;
          expires_at = key.expires_at;
        },
        create_audit_log "key_created" key.id key.client_name (detail_of key.expires_at) committed,
      )

-- The end of `revoke_key`.
unfoldable pub audit_revocation : Option ApiKey × Database → Http Unit × Database
audit_revocation (none, db) =
    (refuse (record { status_code = 404; detail = plain "chave não encontrada"; headers = [] }), db)
audit_revocation (some key, db) =
    (reply tt, create_audit_log "key_revoked" key.id key.client_name none db)

unfoldable pub revoke_key : ℕ → Database → Http Unit × Database
unfolding audit_revocation
revoke_key key_id db = audit_revocation (deactivate_key key_id db)

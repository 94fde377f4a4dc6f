-- ===== src/Routers/Chat/Admitted.antt =====
-- src/llm_gateway/routers/chat.py and src/llm_gateway/core/security.py: which requests
-- `authenticate_request` lets through.
use myown_llm_gateway.Base.{ℕ, String, true, false, Option, some, ◌≡◌}
use myown_llm_gateway.Base.Text.{Text}
use myown_llm_gateway.Core.Security.{is_expired}
use myown_llm_gateway.Storage.Orm.{ApiKey, Database}
use myown_llm_gateway.Storage.Repositories.{get_key_by_hash}
use myown_llm_gateway.Routers.Http.{Http, reply, refuse, crash}
use myown_llm_gateway.Routers.Chat.Auth.{bearer_key}

abbrev pub IsUnauthorized : {A : Type 0} → Http A → Type 0
IsUnauthorized (reply a) = ⊥
IsUnauthorized (refuse e) = e.status_code ≡ 401
IsUnauthorized (crash e) = ⊥

-- The row of the hash of the Bearer key, active and not expired.
pub record IsKeyOf (hash : Text → String) (header : Option Text) (now : ℕ) (db : Database)
    (raw_key : Text) (key : ApiKey) : Type 0 where
  carried : bearer_key header ≡ some raw_key
  pub found : get_key_by_hash (hash raw_key) db ≡ some key
  pub hashed : key.hashed_key ≡ hash raw_key
  pub active : key.is_active ≡ true
  pub current : is_expired key.expires_at now ≡ false

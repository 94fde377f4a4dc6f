-- ===== src/Routers/Chat/Auth.antt =====
-- `authenticate_request`: the Bearer key of a request, resolved to the id of its row.
use myown_llm_gateway.Base.{ℕ, String, Option, none, some, [], null, drop, if◌then◌else◌}
use myown_llm_gateway.Base.Text.{Text, codes, strip, starts_with}
use myown_llm_gateway.Core.Exceptions.{invalid_virtual_key, Result, ok, raise}
use myown_llm_gateway.Core.Security.{authenticate_virtual_key}
use myown_llm_gateway.Storage.Orm.{ApiKey, Database}
use myown_llm_gateway.Storage.Repositories.{get_key_by_hash}
use myown_llm_gateway.Routers.Http.{Http, reply, refuse, crash, plain}

abbrev unauthorized : {A : Type 0} → String → Http A
unauthorized text = refuse (record { status_code = 401; detail = plain text; headers = [] })

-- The key that the header carries, if it is `Bearer `, some text, and not blank.
unfoldable pub bearer_key : Option Text → Option Text
bearer_key none = none
bearer_key (some header) =
    if starts_with header (codes "Bearer ")
    then (let raw_key = strip (drop 7 header) in if null raw_key then none else some raw_key)
    else none

abbrev pub id_of : Result ApiKey → Http ℕ
id_of (ok key) = reply key.id
id_of (raise (invalid_virtual_key text)) = unauthorized "Invalid API key"
id_of (raise e) = crash e

module _ (hash : Text → String) where
  unfoldable pub authenticate_request : Option Text → ℕ → Database → Http ℕ
  unfolding bearer_key
  authenticate_request header now db = elim (bearer_key header) [
    | none ↦ unauthorized "Missing or invalid API key"
    | some raw_key ↦ id_of (authenticate_virtual_key hash raw_key (λ h. get_key_by_hash h db) now)
  ]

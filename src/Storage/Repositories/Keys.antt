-- ===== src/Storage/Repositories/Keys.antt =====
-- src/llm_gateway/storage/repositories.py: authentication after `deactivate_key`.
use myown_llm_gateway.Base.{
  ℕ, String, false, Option, none, some, List, [], ◌∷◌, filter, ◌==◌, str_eq, if◌then◌else◌, ◌≡◌,
  refl, arith,
}
use myown_llm_gateway.Base.Text.{Text}
use myown_llm_gateway.Core.Exceptions.{Result, ok, raise}
use myown_llm_gateway.Core.Security.{authenticate_virtual_key, check_record}
use myown_llm_gateway.Storage.Orm.{ApiKey, Database}
use myown_llm_gateway.Storage.Repositories.{first, get_key_by_hash, switch_off, deactivate_key}

-- The row that a request authenticates as.
abbrev pub accepted : Result ApiKey → Option ApiKey
accepted (ok key) = some key
accepted (raise e) = none

-- A row unless it is that of `key_id`.
abbrev pub except : ℕ → Option ApiKey → Option ApiKey
except key_id none = none
except key_id (some key) = if key.id == key_id then none else some key

abbrev switched : ℕ → Option ApiKey → Option ApiKey
switched key_id none = none
switched key_id (some k) = some (if k.id == key_id then record k { is_active = false } else k)

first-switch_off :
    (key_id : ℕ) (h : String) (ks : List ApiKey)
    → first (filter (λ k. str_eq k.hashed_key h) (switch_off key_id ks))
      ≡ switched key_id (first (filter (λ k. str_eq k.hashed_key h) ks))
first-switch_off key_id h [] = refl
first-switch_off key_id h (k ∷ ks) = ground (arith, first-switch_off key_id h ks)

-- With no row of the id there is nothing to switch off.
switch_off_absent :
    (key_id : ℕ) (ks : List ApiKey)
    → first (filter (λ k. k.id == key_id) ks) ≡ none
    → switch_off key_id ks ≡ ks
switch_off_absent key_id [] h = refl
switch_off_absent key_id (k ∷ ks) h = ground (arith, switch_off_absent key_id ks)

api_keys-deactivate_key :
    (key_id : ℕ) (db : Database)
    → (deactivate_key key_id db).1.api_keys ≡ switch_off key_id db.api_keys
unfolding deactivate_key
api_keys-deactivate_key key_id db = ground (arith, switch_off_absent key_id db.api_keys)

check_record-switched :
    (key_id : ℕ) (o : Option ApiKey) (now : ℕ)
    → accepted (check_record (switched key_id o) now)
      ≡ except key_id (accepted (check_record o now))
unfolding check_record
check_record-switched key_id none now = refl
check_record-switched key_id (some k) now = ground arith

-- After `deactivate_key` on an id, whatever the key that a request presents and whenever, it
-- authenticates as the row that it would have authenticated as before, unless that row is the one
-- of the id: then it is rejected.
pub authenticate-deactivate_key :
    (hash : Text → String) (raw_key : Text) (key_id now : ℕ) (db : Database)
    → let after = (deactivate_key key_id db).1 in
      accepted (authenticate_virtual_key hash raw_key (λ h. get_key_by_hash h after) now)
      ≡ except key_id
          (accepted (authenticate_virtual_key hash raw_key (λ h. get_key_by_hash h db) now))
unfolding authenticate_virtual_key get_key_by_hash
authenticate-deactivate_key hash raw_key key_id now db =
    rw (api_keys-deactivate_key key_id db)
      (rw (first-switch_off key_id (hash raw_key) db.api_keys) (check_record-switched key_id _ now))

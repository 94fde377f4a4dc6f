-- ===== src/Core/Security.antt =====
-- src/llm_gateway/core/security.py: a virtual key is found by the hash of its raw text. SHA-256 is
-- the parameter `hash`; a time with no zone is one of UTC, so an expiry is a number of microseconds.
use myown_llm_gateway.Base.{
  ℕ, String, Bool, false, Option, none, some, leb, not, if◌then◌else◌, str_eq,
}
use myown_llm_gateway.Base.Text.{Text}
use myown_llm_gateway.Core.Exceptions.{Result, ok, raise, invalid_virtual_key}
use myown_llm_gateway.Storage.Orm.{ApiKey}

-- `_is_expired`
unfoldable pub is_expired : Option ℕ → ℕ → Bool
is_expired none now = false
is_expired (some expires_at) now = leb expires_at now

-- What follows the lookup.
unfoldable pub check_record : Option ApiKey → ℕ → Result ApiKey
unfolding is_expired
check_record none now = raise (invalid_virtual_key "Virtual API key not found or inactive.")
check_record (some key) now =
    if not key.is_active
    then raise (invalid_virtual_key "Virtual API key not found or inactive.")
    else if is_expired key.expires_at now
    then raise (invalid_virtual_key "Virtual API key has expired.")
    else ok key

module _ (hash : Text → String) where
  -- `verify_key_hash`
  unfoldable verify_key_hash : Text → String → Bool
  verify_key_hash raw_key expected_hash = str_eq (hash raw_key) expected_hash

  unfoldable pub authenticate_virtual_key : Text → (String → Option ApiKey) → ℕ → Result ApiKey
  authenticate_virtual_key raw_key lookup now = check_record (lookup (hash raw_key)) now

-- ===== src/Core/Exceptions.antt =====
-- src/llm_gateway/core/exceptions.py, and the result of code that may raise. The class hierarchy
-- is a data type with a constructor for each class of provider failure.
use myown_llm_gateway.Base.{ℕ, String, Option, List}

-- A message is kept as its f-string: a constructor for each text, over the values in its places.
pub data Message : Type 0 where
  timed_out_after : String → ℕ → Message
  rate_limited_429 auth_failed_401 : String → Message
  returned_http : String → ℕ → Message
  request_failed : String → String → Message
  unparseable_response : String → Message

-- The arguments are the message and the provider; a rate limit has the upstream Retry-After too.
pub data ProviderError : Type 0 where
  generic timeout auth : Message → String → ProviderError
  rate_limited : Message → String → Option String → ProviderError

pub data Exception : Type 0 where
  provider_error : ProviderError → Exception
  -- the providers that were attempted, and the last error
  no_provider_available : List String → Option ProviderError → Exception
  invalid_virtual_key : String → Exception
  -- built-in exceptions of Python
  value_error type_error attribute_error key_error index_error : Exception

pub data Result {ℓ} (A : Type ℓ) : Type ℓ where
  ok : A → Result A
  raise : Exception → Result A

module _ {ℓ κ} {A : Type ℓ} {B : Type κ} where
  infixl 5 ◌>>=◌
  -- Statements in sequence: the first exception leaves the function.
  abbrev pub ◌>>=◌ : Result A → (A → Result B) → Result B
  result >>= next = elim result [ ok value ↦ next value | raise exc ↦ raise exc ]

-- `str(error)`
unfoldable pub message : ProviderError → Message
message (generic m p) = m
message (timeout m p) = m
message (auth m p) = m
message (rate_limited m p r) = m

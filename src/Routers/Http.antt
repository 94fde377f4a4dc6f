-- ===== src/Routers/Http.antt =====
-- The responses of the endpoints, as FastAPI takes them: a value, or an `HTTPException`.
use myown_llm_gateway.Base.{ℕ, String, Option, List}
use myown_llm_gateway.Base.Dict.{Dict}
use myown_llm_gateway.Core.Exceptions.{Message, Exception}

-- The texts of the error envelopes, a constructor for each f-string.
pub data ErrorText : Type 0 where
  fixed : String → ErrorText
  upstream_timed_out upstream_auth_failed upstream_rate_limited upstream_error : Message → ErrorText
  max_tokens_exceed : ℕ → ℕ → ErrorText
  model_does_not_exist model_not_found : String → ErrorText
  spend_limit_exceeded : ℕ → ℕ → ErrorText

-- `{"error": {"message": ..., "type": ..., "attempted_providers": ...}}`
pub record ErrorBody : Type 0 where
  pub message : ErrorText
  pub kind : String
  pub attempted_providers : Option (List String)

-- A header value: `str(n)`, or a text.
pub data HeaderValue : Type 0 where
  number : ℕ → HeaderValue
  text : String → HeaderValue

-- `detail` is a text or an error body.
pub data Detail : Type 0 where
  plain : String → Detail
  envelope : ErrorBody → Detail

pub record HttpException : Type 0 where
  pub status_code : ℕ
  pub detail : Detail
  pub headers : Dict HeaderValue

-- `reply` is a response, `refuse` an `HTTPException`, and `crash` any other exception, a 500.
pub data Http (A : Type 0) : Type 0 where
  reply : A → Http A
  refuse : HttpException → Http A
  crash : Exception → Http A

module _ {A B : Type 0} where
  infixl 5 ◌>>=◌
  abbrev pub ◌>>=◌ : Http A → (A → Http B) → Http B
  h >>= next = elim h [ reply a ↦ next a | refuse e ↦ refuse e | crash e ↦ crash e ]

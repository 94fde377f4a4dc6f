-- ===== src/Routers/Chat/Guards.antt =====
-- The guards before the gateway: rate limit, spend cap, `max_tokens`, and unknown models. Spending
-- and its limits are in units of 10^-8 dollars.
use myown_llm_gateway.Base.{ℕ, String, Option, none, some, [], ◌∷◌, leb, ltb, any, if◌then◌else◌}
use myown_llm_gateway.Base.Dict.{Dict}
use myown_llm_gateway.Core.Exceptions.{ProviderError, generic, timeout, auth, rate_limited, message}
use myown_llm_gateway.Core.RateLimiter.{
  Limits, Delivery, SortedSet, RateLimitStatus, check_rate_limit_status,
}
use myown_llm_gateway.Models.Api.{ChatRequest}
use myown_llm_gateway.Providers.Base.{BaseProvider}
use myown_llm_gateway.Providers.Factory.Registry.{all_providers}
use myown_llm_gateway.Services.Router.{serves}
use myown_llm_gateway.Services.Usage.{Effects, record_failed_request}
use myown_llm_gateway.Storage.Orm.{ApiKey, Database}
use myown_llm_gateway.Storage.Repositories.{get_key_by_id, get_key_spend_usd, get_global_spend_usd}
use myown_llm_gateway.Routers.Http.{
  Http, reply, refuse, HttpException, envelope, ErrorText, fixed, upstream_timed_out,
  upstream_auth_failed, upstream_rate_limited, upstream_error, max_tokens_exceed,
  model_does_not_exist, spend_limit_exceeded, HeaderValue, number,
}

-- `HTTPException` with an error envelope that names no providers
abbrev pub error_response : ℕ → ErrorText → String → Dict HeaderValue → HttpException
error_response status_code message kind headers = record {
  status_code = status_code;
  detail = envelope (record { message = message; kind = kind; attempted_providers = none });
  headers = headers;
}

abbrev quota_headers : RateLimitStatus → Dict HeaderValue
quota_headers s =
    ("X-RateLimit-Limit", number s.limit)
    ∷ ("X-RateLimit-Remaining", number s.remaining)
    ∷ ("X-RateLimit-Reset", number s.window_seconds)
    ∷ []

-- The end of `enforce_rate_limit`: the outcome, the headers of the response, and the effects.
unfoldable apply_status :
    Limits → ℕ → RateLimitStatus → Effects → Http ℕ × Dict HeaderValue × Effects
apply_status limits virtual_key_id s e =
    if s.allowed then (reply virtual_key_id, quota_headers s, e) else (
      refuse (
          error_response 429 (fixed "Rate limit exceeded") "rate_limit_error"
            (("Retry-After", number limits.window_seconds) ∷ quota_headers s)),
      quota_headers s,
      record_failed_request virtual_key_id "" "" 0 "rate_limited" e,
    )

-- `enforce_rate_limit`, on the sorted set of the key
unfoldable pub enforce_rate_limit :
    Limits
    → Delivery
    → Delivery
    → ℕ
    → ℕ
    → ℕ
    → SortedSet
    → Effects
    → Http ℕ × Dict HeaderValue × Effects × SortedSet
unfolding apply_status
enforce_rate_limit limits pipe undo now token virtual_key_id z e =
    let (s, z') = check_rate_limit_status limits pipe undo now token z in
    let (outcome, headers, e') = apply_status limits virtual_key_id s e in
    (outcome, headers, e', z')

abbrev pub key_limit : Option ApiKey → Option ℕ
key_limit none = none
key_limit (some key) = key.spend_limit_usd

-- The check of the key's limit: the refusal, if there is one.
unfoldable pub over_key_limit : Option ℕ → ℕ → Option HttpException
over_key_limit none spent = none
over_key_limit (some limit) spent =
    if leb limit spent
    then some (error_response 429 (spend_limit_exceeded spent limit) "insufficient_quota" [])
    else none

unfoldable pub over_global_limit : Option ℕ → ℕ → Option HttpException
over_global_limit none spent = none
over_global_limit (some limit) spent =
    if leb limit spent
    then some (error_response 429 (fixed "Global spend limit exceeded") "insufficient_quota" [])
    else none

-- The two checks in their order.
unfoldable pub check_caps : Option HttpException → Option HttpException → ℕ → Http ℕ
check_caps (some e) over_global virtual_key_id = refuse e
check_caps none (some e) virtual_key_id = refuse e
check_caps none none virtual_key_id = reply virtual_key_id

-- `enforce_spend_cap`, over `GLOBAL_SPEND_LIMIT_USD`
unfoldable pub enforce_spend_cap : Option ℕ → ℕ → Database → Http ℕ
unfolding over_key_limit over_global_limit check_caps
enforce_spend_cap global_limit virtual_key_id db =
    check_caps
      (over_key_limit (key_limit (get_key_by_id virtual_key_id db))
        (get_key_spend_usd virtual_key_id db))
      (over_global_limit global_limit (get_global_spend_usd db)) virtual_key_id

-- `_classify_upstream_error`
unfoldable pub classify_upstream_error :
    Option ProviderError → ℕ × String × ErrorText × Option String
unfolding message
classify_upstream_error (some (timeout m p)) =
    (504, "timeout_error", upstream_timed_out (message (timeout m p)), none)
classify_upstream_error (some (auth m p)) =
    (502, "auth_error", upstream_auth_failed (message (auth m p)), none)
classify_upstream_error (some (rate_limited m p retry_after)) = (
  502,
  "rate_limit_error",
  upstream_rate_limited (message (rate_limited m p retry_after)),
  retry_after,
)
classify_upstream_error (some (generic m p)) =
    (502, "upstream_error", upstream_error (message (generic m p)), none)
classify_upstream_error none = (502, "upstream_error", fixed "No provider available", none)

-- The test of `_enforce_max_tokens` and the request that it returns.
unfoldable pub enforce_max_tokens : ℕ → ChatRequest → Http ChatRequest
enforce_max_tokens limit body = elim body.max_tokens [
  | none ↦ reply (record body { max_tokens = some limit })
  | some asked ↦
      if ltb limit asked
      then refuse (error_response 400 (max_tokens_exceed asked limit) "invalid_request_error" [])
      else reply body
]

abbrev pub model_not_found : String → HttpException
model_not_found model = error_response 404 (model_does_not_exist model) "model_not_found" []

-- `_reject_unknown_streaming_model`: the refusal, if there is one
unfoldable pub reject_unknown_streaming_model :
    {W : Type 0}
    → ChatRequest
    → Dict (BaseProvider W)
    → ℕ
    → ℕ
    → Effects
    → Option HttpException × Effects
reject_unknown_streaming_model body registry virtual_key_id latency_ms e =
    if any (serves body.model) (all_providers registry) then (none, e) else (
      some (model_not_found body.model),
      record_failed_request virtual_key_id "" body.model latency_ms "model_not_found" e,
    )

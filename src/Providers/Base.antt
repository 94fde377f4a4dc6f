-- ===== src/Providers/Base.antt =====
-- src/llm_gateway/providers/base.py: the interface of an adapter, and the mapping of transport and
-- parse failures to the gateway's exceptions. `W` is the outside world, which a call may change.
use myown_llm_gateway.Base.{
  ℕ, String, Option, none, some, [], ◌∷◌, ◌++◌, if◌then◌else◌, ◌==◌, not, ◌&&◌, str_eq,
}
use myown_llm_gateway.Base.Dict.{Dict, keys, contains}
use myown_llm_gateway.Base.Json.{Json}
use myown_llm_gateway.Base.Text.{Text}
use myown_llm_gateway.Core.Exceptions.{
  ProviderError, generic, timeout, auth, rate_limited, Exception, provider_error, value_error,
  key_error, Result, ok, raise, timed_out_after, rate_limited_429, auth_failed_401, returned_http,
  request_failed, unparseable_response,
}
use myown_llm_gateway.Models.Api.{ChatRequest, ChatResponse}
use myown_llm_gateway.Models.Provider.{ProviderConfig}

-- An `AsyncIterator[str]`: what it yields until it stops or raises.
pub data Stream : Type 0 where
  finished : Stream
  failed : Exception → Stream
  line : Text → Stream → Stream

pub record BaseProvider (W : Type 0) : Type 0 where
  pub config : ProviderConfig
  pub chat_completion : ChatRequest → W → Result ChatResponse × W
  pub stream_chat_completion : ChatRequest → W → Stream × W

-- The exceptions of httpx that the adapter catches. A status error has the response's status and
-- its `retry-after` header.
pub data HttpxError : Type 0 where
  timeout_exception request_error : String → HttpxError
  http_status_error : ℕ → Option String → HttpxError

-- What `client.post` and `raise_for_status` give: a body, whose `json()` may raise, or an error.
pub data PostOutcome : Type 0 where
  response : Result Json → PostOutcome
  post_raised : HttpxError → PostOutcome

-- What `client.stream` gives: lines, and the end or an error.
pub data Incoming : Type 0 where
  closed : Incoming
  broken : HttpxError → Incoming
  received : Text → Incoming → Incoming

request_id_header : String
request_id_header = "X-Request-ID"

-- `_with_request_id`, over the context's request id
unfoldable pub with_request_id : Option String → Dict String → Dict String
unfolding request_id_header
with_request_id none headers = headers
with_request_id (some request_id) headers =
    if not (str_eq request_id "") && not (contains request_id_header (keys headers))
    then headers ++ (request_id_header, request_id) ∷ []
    else headers

-- `_provider_error`
unfoldable pub map_httpx_error : ProviderConfig → ℕ → HttpxError → ProviderError
map_httpx_error config timeout_seconds (timeout_exception _) =
    timeout (timed_out_after config.name timeout_seconds) config.name
map_httpx_error config timeout_seconds (http_status_error status retry_after) =
    if status == 429
    then rate_limited (rate_limited_429 config.name) config.name retry_after
    else if status == 401
    then auth (auth_failed_401 config.name) config.name
    else generic (returned_http config.name status) config.name
map_httpx_error config timeout_seconds (request_error text) =
    generic (request_failed config.name text) config.name

-- `_post`
unfoldable pub post : ProviderConfig → ℕ → PostOutcome → Result (Result Json)
unfolding map_httpx_error
post config timeout_seconds (response body) = ok body
post config timeout_seconds (post_raised exc) =
    raise (provider_error (map_httpx_error config timeout_seconds exc))

-- The `except` of `_parse_response`: `ValueError` and `KeyError` alone are wrapped.
unfoldable pub wrap_parse_error : ProviderConfig → Result ChatResponse → Result ChatResponse
wrap_parse_error config (ok r) = ok r
wrap_parse_error config (raise value_error) =
    raise (provider_error (generic (unparseable_response config.name) config.name))
wrap_parse_error config (raise key_error) =
    raise (provider_error (generic (unparseable_response config.name) config.name))
wrap_parse_error config (raise e) = raise e

-- `_parse_response`
unfoldable pub parse_response :
    ProviderConfig → Result Json → (Json → Result ChatResponse) → Result ChatResponse
unfolding wrap_parse_error
parse_response config (ok body) parse = wrap_parse_error config (parse body)
parse_response config (raise e) parse = wrap_parse_error config (raise e)

-- `_iter_sse_lines`
unfoldable pub iter_sse_lines : ProviderConfig → ℕ → Incoming → Stream
unfolding map_httpx_error
iter_sse_lines config timeout_seconds closed = finished
iter_sse_lines config timeout_seconds (broken exc) =
    failed (provider_error (map_httpx_error config timeout_seconds exc))
iter_sse_lines config timeout_seconds (received l rest) =
    line l (iter_sse_lines config timeout_seconds rest)

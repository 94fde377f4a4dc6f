-- ===== src/Routers/Chat/Completions.antt =====
-- `chat_completions`, once the dependencies have let the request through. The body of a streaming
-- response is produced later, in Stream.
use myown_llm_gateway.Base.{
  ℕ, String, Bool, true, false, Option, none, some, List, [], ◌∷◌, str_eq, if◌then◌else◌,
}
use myown_llm_gateway.Base.Dict.{Dict}
use myown_llm_gateway.Core.Exceptions.{
  ProviderError, provider_error, no_provider_available, Result, ok, raise, message,
}
use myown_llm_gateway.Models.Api.{ChatRequest, ChatResponse}
use myown_llm_gateway.Providers.Base.{BaseProvider}
use myown_llm_gateway.Services.Cache.{Codec}
use myown_llm_gateway.Services.SingleFlight.{State, Run, latency_ms}
use myown_llm_gateway.Services.Gateway.{handle_chat_completion}
use myown_llm_gateway.Services.Usage.{Effects, record_failed_request}
use myown_llm_gateway.Routers.Http.{
  Http, reply, refuse, crash, HttpException, envelope, upstream_error, HeaderValue, text,
}
use myown_llm_gateway.Routers.Chat.Guards.{
  error_response, classify_upstream_error, enforce_max_tokens, model_not_found,
  reject_unknown_streaming_model,
}

-- What the endpoint returns: a response, or the stream that answers a request.
pub data Reply : Type 0 where
  complete : ChatResponse → Reply
  event_stream : ChatRequest → Reply

-- `{"Retry-After": retry_after} if retry_after else None`
abbrev pub retry_headers : Option String → Dict HeaderValue
retry_headers none = []
retry_headers (some retry_after) =
    if str_eq retry_after "" then [] else ("Retry-After", text retry_after) ∷ []

-- The exception for a chain of providers that all failed.
unfoldable pub chain_failed : List String → Option ProviderError → HttpException
unfolding classify_upstream_error
chain_failed attempted last_error =
    let (status_code, kind, message, retry_after) = classify_upstream_error last_error in
    record {
      status_code = status_code;
      detail =
          envelope
            (record { message = message; kind = kind; attempted_providers = some attempted });
      headers = retry_headers retry_after;
    }

-- The `try` and its `except` blocks: the outcome, and the `error_type` of the row of a failure.
unfoldable pub respond : String → Result ChatResponse → Http Reply × Option String
unfolding chain_failed message
respond model (ok response) = (reply (complete response), none)
respond model (raise (no_provider_available [] last_error)) =
    (refuse (model_not_found model), some "model_not_found")
respond model (raise (no_provider_available (p ∷ ps) last_error)) =
    (refuse (chain_failed (p ∷ ps) last_error), some "upstream_error")
respond model (raise (provider_error e)) = (
  refuse (error_response 502 (upstream_error (message e)) "upstream_error" []),
  some "upstream_error",
)
respond model (raise e) = (crash e, none)

module _ {W : Type 0} where
  abbrev log_failure : ℕ → String → ℕ → Option String → State W → State W
  log_failure virtual_key_id model latency none s = s
  log_failure virtual_key_id model latency (some error_type) s = record s {
    effects = record_failed_request virtual_key_id "" model latency error_type s.effects;
  }

  -- The non-streaming branch, on what the gateway returned; `none` if it never returns.
  unfoldable pub answer :
      ℕ → String → ℕ → Option (Result ChatResponse) × State W → Option (Http Reply) × State W
  unfolding respond
  answer virtual_key_id model latency (none, s) = (none, s)
  answer virtual_key_id model latency (some result, s) =
      let (outcome, error_type) = respond model result in
      (some outcome, log_failure virtual_key_id model latency error_type s)

  -- The streaming branch, after the test of its model.
  unfoldable pub opened :
      ChatRequest → State W → Option HttpException × Effects → Option (Http Reply) × State W
  opened body s (none, effects) = (some (reply (event_stream body)), record s { effects = effects })
  opened body s (some e, effects) = (some (refuse e), record s { effects = effects })

  unfoldable pub open_stream :
      ChatRequest → Dict (BaseProvider W) → ℕ → ℕ → State W → Option (Http Reply) × State W
  unfolding opened
  open_stream body registry virtual_key_id latency s =
      opened body s (reject_unknown_streaming_model body registry virtual_key_id latency s.effects)

module _ {W : Type 0} (codec : Codec) (ttl : ℕ) (run : Run W)
    (digest : ChatRequest × Option ℕ → String) where
  abbrev pub dispatch :
      Bool → ChatRequest → Dict (BaseProvider W) → ℕ → State W → Option (Http Reply) × State W
  dispatch true body registry virtual_key_id s =
      open_stream body registry virtual_key_id (latency_ms run.started (run.clock 8)) s
  dispatch false body registry virtual_key_id s =
      answer virtual_key_id body.model (latency_ms run.started (run.clock 8))
        (handle_chat_completion codec ttl run digest body registry virtual_key_id s)

  abbrev pub enter :
      Http ChatRequest → Dict (BaseProvider W) → ℕ → State W → Option (Http Reply) × State W
  enter (reply body) registry virtual_key_id s = dispatch body.stream body registry virtual_key_id s
  enter (refuse e) registry virtual_key_id s = (some (refuse e), s)
  enter (crash e) registry virtual_key_id s = (some (crash e), s)

  unfoldable pub chat_completions :
      ℕ → ChatRequest → Dict (BaseProvider W) → ℕ → State W → Option (Http Reply) × State W
  unfolding answer open_stream
  chat_completions max_tokens_per_request body registry virtual_key_id s =
      enter (enforce_max_tokens max_tokens_per_request body) registry virtual_key_id s

-- ===== src/Routers/Chat/Alike.antt =====
-- src/llm_gateway/routers/chat.py: a request that every candidate fails, streamed and not.
use myown_llm_gateway.Base.{
  ℕ, String, Option, none, some, List, [], ◌∷◌, ◌++◌, ◌≡◌, refl, ap, ◌∙◌, All, append_assoc,
  append-nil,
}
use myown_llm_gateway.Base.Dict.{Dict}
use myown_llm_gateway.Core.Exceptions.{
  ProviderError, Exception, provider_error, no_provider_available, raise,
}
use myown_llm_gateway.Models.Api.{ChatRequest}
use myown_llm_gateway.Providers.Base.{BaseProvider, failed}
use myown_llm_gateway.Services.Cache.{Codec}
use myown_llm_gateway.Services.Fallback.{try_providers, execute_with_fallback}
use myown_llm_gateway.Services.Fallback.Laws.{names}
use myown_llm_gateway.Services.Gateway.{lead, conclude}
use myown_llm_gateway.Services.Router.{select_providers}
use myown_llm_gateway.Services.SingleFlight.{State, Run}
use myown_llm_gateway.Services.Streaming.{raised, try_streams, stream_chat_completion}
use myown_llm_gateway.Routers.Http.{refuse, HttpException, envelope}
use myown_llm_gateway.Routers.Chat.Completions.{retry_headers, respond, chain_failed}
use myown_llm_gateway.Routers.Chat.Stream.{
  ErrorEvent, error_event, sse_error, drain, fail, on_failure, end_stream, replay_or_relay,
}

module _ {W : Type 0} (request : ChatRequest) (error : BaseProvider W → ProviderError) where
  -- The provider fails the request with its error, whether it is to stream or not.
  abbrev FailsAlike : BaseProvider W → Type 0
  FailsAlike p =
      ((w : W) → (p.chat_completion request w).0 ≡ raise (provider_error (error p)))
      × ((w : W) → (p.stream_chat_completion request w).0 ≡ failed (provider_error (error p)))

  passed_over :
      (p : BaseProvider W) (ps : List (BaseProvider W)) (attempted : List String)
      (last : Option ProviderError) (w : W)
      → (p.chat_completion request w).0 ≡ raise (provider_error (error p))
      → (try_providers (p ∷ ps) request attempted last w).0
        ≡ (try_providers ps request
            (attempted ++ p.config.name ∷ [])
            (some (error p))
            (p.chat_completion request w).1).0
  unfolding try_providers
  passed_over p ps attempted last w called = rw (called, try_providers) refl

  passed_over_stream :
      (p : BaseProvider W) (ps : List (BaseProvider W)) (attempted : List String)
      (last : Option ProviderError) (w : W)
      → (p.stream_chat_completion request w).0 ≡ failed (provider_error (error p))
      → (try_streams (p ∷ ps) request attempted last w).0
        ≡ (try_streams ps request
            (attempted ++ p.config.name ∷ [])
            (some (error p))
            (p.stream_chat_completion request w).1).0
  unfolding try_streams
  passed_over_stream p ps attempted last w called = rw (called, try_streams) refl

  -- The error of the last provider.
  abbrev pub last_of : Option ProviderError → List (BaseProvider W) → Option ProviderError
  last_of last [] = last
  last_of last (p ∷ ps) = last_of (some (error p)) ps

  fallback :
      (ps : List (BaseProvider W)) (attempted : List String) (last : Option ProviderError) (w : W)
      → All FailsAlike ps
      → (try_providers ps request attempted last w).0
        ≡ raise (no_provider_available (attempted ++ names ps) (last_of last ps))
  unfolding try_providers
  fallback [] attempted last w alike = rw (append-nil attempted) refl
  fallback (p ∷ ps) attempted last w ((called, streamed), alike) =
      passed_over p ps attempted last w (called w)
      ∙ fallback ps (attempted ++ p.config.name ∷ []) (some (error p))
          (p.chat_completion request w).1 alike
      ∙ rw (append_assoc attempted (p.config.name ∷ []) (names ps)) refl

  fallback_stream :
      (ps : List (BaseProvider W)) (attempted : List String) (last : Option ProviderError) (w : W)
      → All FailsAlike ps
      → (try_streams ps request attempted last w).0
        ≡ raised (no_provider_available (attempted ++ names ps) (last_of last ps))
  unfolding try_streams
  fallback_stream [] attempted last w alike = rw (append-nil attempted) refl
  fallback_stream (p ∷ ps) attempted last w ((called, streamed), alike) =
      passed_over_stream p ps attempted last w (streamed w)
      ∙ fallback_stream ps (attempted ++ p.config.name ∷ []) (some (error p))
          (p.stream_chat_completion request w).1 alike
      ∙ rw (append_assoc attempted (p.config.name ∷ []) (names ps)) refl

-- The two answers to an exception of a chain that failed: the same error, and the same row.
abbrev pub AreAlike :
    Option String → String → Exception → HttpException → ErrorEvent → String → Type 0
AreAlike context model e exc event error_type =
    (respond model (raise e) ≡ (refuse exc, some error_type))
    × (on_failure context model e ≡ some (event, error_type))
    × (exc.detail
        ≡ envelope (record {
          message = event.message;
          kind = event.kind;
          attempted_providers = event.attempted_providers;
        }))
    × (exc.headers ≡ retry_headers event.retry_after)

chain-AreAlike :
    (context : Option String) (model : String) (names : List String) (last : Option ProviderError)
    → (exc : HttpException) × (event : ErrorEvent) × (error_type : String) × AreAlike context model
        (no_provider_available names last)
        exc
        event
        error_type
unfolding respond on_failure chain_failed sse_error
chain-AreAlike context model [] last = (_, _, _, (refl, refl, refl, refl))
chain-AreAlike context model (p ∷ ps) last = (_, _, _, (refl, refl, refl, refl))

module _ {W : Type 0} (codec : Codec) (ttl : ℕ) (run : Run W) (key : ℕ) where
  lead-raise :
      (cache_key : String) (request : ChatRequest) (ps : List (BaseProvider W))
      (token : Option String) (s : State W) (e : Exception)
      → ((w : W) → (try_providers ps request [] none w).0 ≡ raise e)
      → (lead codec ttl run cache_key request key ps token s).0 ≡ raise e
  unfolding lead conclude execute_with_fallback
  lead-raise cache_key request ps token s e h = rw (h _) refl

  replay_or_relay-raised :
      (context : Option String) (cache_key : String) (request : ChatRequest)
      (registry : Dict (BaseProvider W)) (s : State W) (e : Exception) (event : ErrorEvent)
      (error_type : String)
      → (stream_chat_completion request registry s.world).0 ≡ raised e
      → on_failure context request.model e ≡ some (event, error_type)
      → (replay_or_relay codec ttl run context cache_key request registry key none s).0
        ≡ record { sent = error_event event ∷ []; ending = none }
  unfolding replay_or_relay end_stream fail drain
  replay_or_relay-raised context cache_key request registry s e event error_type ended answered =
      rw (ended, answered) refl

-- If every candidate fails a request with the same provider error whether it is to stream or not,
-- then the one line of a stream that misses the cache is an error event, and what the endpoint makes
-- of a call of the providers for the same request is a refusal: the two have the same message, type
-- and attempted providers, the refusal has the event's retry_after as its Retry-After header unless
-- that is empty, and the rows of the two have the same type of error.
pub replay_or_relay-lead :
    {W : Type 0} (codec : Codec) (ttl : ℕ) (run run' : Run W) (key : ℕ) (context : Option String)
    (cache_key : String) (request : ChatRequest) (registry : Dict (BaseProvider W))
    (token : Option String) (s s' : State W) (error : BaseProvider W → ProviderError)
    → let candidates = select_providers registry request.model in
      All (FailsAlike request error) candidates
      → (exc : HttpException) × (event : ErrorEvent) × (error_type : String) × ((replay_or_relay
            codec ttl run context cache_key request registry key none s).0
          ≡ record { sent = error_event event ∷ []; ending = none })
        × (respond request.model (lead codec ttl run' cache_key request key candidates token s').0
            ≡ (refuse exc, some error_type))
        × AreAlike context request.model
            (no_provider_available (names candidates) (last_of request error none candidates))
            exc
            event
            error_type
unfolding stream_chat_completion
replay_or_relay-lead codec ttl run run' key context cache_key request registry token s s' error
      alike =
    let candidates = select_providers registry request.model in
    let (exc, event, error_type, alike') =
      chain-AreAlike context request.model (names candidates)
        (last_of request error none candidates) in
    (
      exc,
      event,
      error_type,
      replay_or_relay-raised codec ttl run key context cache_key request registry s _ event
          error_type (fallback_stream request error candidates [] none s.world alike) alike'.1,
      ap (respond request.model) (
            lead-raise codec ttl run' key cache_key request candidates token s' _
              (λ w. fallback request error candidates [] none w alike))
          ∙ alike'.0,
      alike',
    )

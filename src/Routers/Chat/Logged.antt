-- ===== src/Routers/Chat/Logged.antt =====
-- src/llm_gateway/routers/chat.py: the rows that a request to the endpoint leaves to be written.
use myown_llm_gateway.Base.{
  ℕ, String, Bool, true, false, Option, none, some, List, [], ◌∷◌, ◌++◌, ◌≡◌, refl, ◌⊎◌, inl, inr,
  ◌∙◌, ap, any, ltb, Bool-cases, Option-cases, if◌then◌else◌,
}
use myown_llm_gateway.Base.Dict.{Dict}
use myown_llm_gateway.Core.Exceptions.{
  provider_error, no_provider_available, Result, ok, raise, invalid_virtual_key, value_error,
  type_error, attribute_error, key_error, index_error,
}
use myown_llm_gateway.Models.Api.{ChatRequest, ChatResponse}
use myown_llm_gateway.Providers.Base.{BaseProvider}
use myown_llm_gateway.Providers.Factory.Registry.{all_providers}
use myown_llm_gateway.Services.Router.{serves}
use myown_llm_gateway.Services.Cache.{Codec}
use myown_llm_gateway.Services.SingleFlight.{State, Run, latency_ms}
use myown_llm_gateway.Services.Gateway.{handle_chat_completion}
use myown_llm_gateway.Services.Gateway.Billing.{IsBilled, IsQuiet, handle_chat_completion-IsBilled}
use myown_llm_gateway.Services.Usage.{Task, persist_failed, record_failed_request, fire_and_forget}
use myown_llm_gateway.Routers.Http.{Http, reply, refuse, crash}
use myown_llm_gateway.Routers.Chat.Guards.{
  enforce_max_tokens, model_not_found, reject_unknown_streaming_model,
}
use myown_llm_gateway.Routers.Chat.Completions.{
  Reply, complete, event_stream, respond, answer, opened, open_stream, dispatch, enter,
  chat_completions,
}

-- The rows to be written after a request, by its outcome: a response has one for its key, with its
-- model and tokens; a refusal has one of a failure of the key and the requested model, except that
-- of a `max_tokens` too large, which has none; an unexpected exception has none, as a stream that
-- has yet to be sent, and a request that hangs.
abbrev pub IsLogged : ℕ → String → Option (Http Reply) → List Task → List Task → Type 0
IsLogged key model (some (reply (complete v))) before after =
    IsBilled key (some (ok v)) before after
IsLogged key model (some (refuse e)) before after =
    ((e.status_code ≡ 400) × (after ≡ before))
    ⊎ ((latency : ℕ) × (kind : String) × (after
          ≡ before ++ persist_failed key "" model latency kind ∷ []))
IsLogged key model (some (reply (event_stream body))) before after = after ≡ before
IsLogged key model (some (crash e)) before after = after ≡ before
IsLogged key model none before after = after ≡ before

-- A request for the model, or a 400.
abbrev IsAdmitted : String → Http ChatRequest → Type 0
IsAdmitted model (reply body) = body.model ≡ model
IsAdmitted model (refuse e) = e.status_code ≡ 400
IsAdmitted model (crash e) = ⊥

enforce_max_tokens-IsAdmitted :
    (limit : ℕ) (body : ChatRequest) → IsAdmitted body.model (enforce_max_tokens limit body)
unfolding enforce_max_tokens
enforce_max_tokens-IsAdmitted limit body = elim (Option-cases body.max_tokens) [
  | inl absent ↦ rw absent refl
  | inr (asked, given) ↦ elim (Bool-cases (ltb limit asked)) [
    | inl more ↦ rw given (rw more refl)
    | inr fits ↦ rw given (rw fits refl)
  ]
]

-- A failure that is logged.
failure :
    (key : ℕ) (model : String) (latency : ℕ) (kind : String) (before after : List Task)
    → after ≡ before
    → (latency' : ℕ) × (kind' : String) × (after ++ persist_failed key "" model latency kind ∷ []
        ≡ before ++ persist_failed key "" model latency' kind' ∷ [])
failure key model latency kind before after same =
    (latency, kind, ap (λ p. p ++ persist_failed key "" model latency kind ∷ []) same)

module _ {W : Type 0} (key : ℕ) (model : String) (latency : ℕ) (before : List Task) where
  abbrev Logs : Option (Http Reply) × State W → Type 0
  Logs out = IsLogged key model out.0 before out.1.effects.pending

  answer-Logs :
      (result : Option (Result ChatResponse)) (s : State W)
      → IsBilled key result before s.effects.pending
      → Logs (answer key model latency (result, s))
  unfolding answer respond record_failed_request fire_and_forget
  answer-Logs none s h = h
  answer-Logs (some (ok v)) s h = h
  answer-Logs (some (raise (no_provider_available [] e))) s h =
      inr (failure key model latency "model_not_found" before s.effects.pending h)
  answer-Logs (some (raise (no_provider_available (p ∷ ps) e))) s h =
      inr (failure key model latency "upstream_error" before s.effects.pending h)
  answer-Logs (some (raise (provider_error e))) s h =
      inr (failure key model latency "upstream_error" before s.effects.pending h)
  answer-Logs (some (raise (invalid_virtual_key t))) s h = h
  answer-Logs (some (raise value_error)) s h = h
  answer-Logs (some (raise type_error)) s h = h
  answer-Logs (some (raise attribute_error)) s h = h
  answer-Logs (some (raise key_error)) s h = h
  answer-Logs (some (raise index_error)) s h = h

  open_stream-Logs :
      (body : ChatRequest) (registry : Dict (BaseProvider W)) (s : State W)
      → body.model ≡ model
      → s.effects.pending ≡ before
      → Logs (open_stream body registry key latency s)
  unfolding open_stream opened reject_unknown_streaming_model record_failed_request fire_and_forget
  open_stream-Logs body registry s same h =
      elim (any (serves body.model) (all_providers registry))
        as (λ known. Logs (
          opened body s (
            if known then (none, s.effects) else (
              some (model_not_found body.model),
              record_failed_request key "" body.model latency "model_not_found" s.effects,
            )))) [
              | true ↦ h
              | false ↦ inr (
                latency,
                "model_not_found",
                ap
                      (λ m.
                        s.effects.pending ++ persist_failed key "" m latency "model_not_found" ∷ [])
                      same
                    ∙ ap (λ p. p ++ persist_failed key "" model latency "model_not_found" ∷ []) h,
              )
            ]

module _ {W : Type 0} (codec : Codec) (ttl : ℕ) (run : Run W)
    (digest : ChatRequest × Option ℕ → String) (registry : Dict (BaseProvider W)) (key : ℕ)
    (s : State W) (quiet : IsQuiet run) where
  dispatch-IsLogged :
      (stream : Bool) (body : ChatRequest) (model : String)
      → body.model ≡ model
      → let out = dispatch codec ttl run digest stream body registry key s in
        IsLogged key model out.0 s.effects.pending out.1.effects.pending
  dispatch-IsLogged true body model same =
      open_stream-Logs key model (latency_ms run.started (run.clock 8)) s.effects.pending body
        registry s same refl
  dispatch-IsLogged false body model same = rw (← same) (
      answer-Logs key body.model (latency_ms run.started (run.clock 8)) s.effects.pending out.0
        out.1 (handle_chat_completion-IsBilled codec ttl run digest body registry key s quiet))
    where
      out : Option (Result ChatResponse) × State W
      out = handle_chat_completion codec ttl run digest body registry key s

  enter-IsLogged :
      (model : String) (admitted : Http ChatRequest)
      → IsAdmitted model admitted
      → let out = enter codec ttl run digest admitted registry key s in
        IsLogged key model out.0 s.effects.pending out.1.effects.pending
  enter-IsLogged model (reply body) same = dispatch-IsLogged body.stream body model same
  enter-IsLogged model (refuse e) bad = inl (bad, refl)
  enter-IsLogged model (crash e) h = refl

-- On every branch of the endpoint, whatever happens at the awaits but for others' rows: a response
-- leaves one row of usage of its key; a refusal leaves one row of failure of its key and model,
-- but for the refusal of a `max_tokens` above the limit, which is a 400 and leaves none; an opened
-- stream, an unexpected exception and a request that hangs leave none.
pub chat_completions-IsLogged :
    {W : Type 0} (codec : Codec) (ttl : ℕ) (run : Run W) (digest : ChatRequest × Option ℕ → String)
    (registry : Dict (BaseProvider W)) (key : ℕ) (max_tokens : ℕ) (body : ChatRequest) (s : State W)
    → IsQuiet run
    → let out = chat_completions codec ttl run digest max_tokens body registry key s in
      IsLogged key body.model out.0 s.effects.pending out.1.effects.pending
unfolding chat_completions
chat_completions-IsLogged codec ttl run digest registry key max_tokens body s quiet =
    enter-IsLogged codec ttl run digest registry key s quiet body.model
      (enforce_max_tokens max_tokens body) (enforce_max_tokens-IsAdmitted max_tokens body)

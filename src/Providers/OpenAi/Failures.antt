-- ===== src/Providers/OpenAi/Failures.antt =====
-- src/llm_gateway/providers/openai.py and src/llm_gateway/providers/base.py: how the calls of the
-- adapter fail, and what its streams relay.
use mathlib.Core.List.{◌++◌ as append}
use myown_llm_gateway.Base.{
  ℕ, String, true, false, Option, [], ◌∷◌, ◌≡◌, refl, ◌⊎◌, inl, inr, arith, Bool-cases, ap,
}
use myown_llm_gateway.Base.Dict.{Dict}
use myown_llm_gateway.Base.Json.{Json}
use myown_llm_gateway.Base.Text.{Text, codes, starts_with}
use myown_llm_gateway.Core.Exceptions.{
  ProviderError, generic, timeout, auth, rate_limited, Exception, provider_error,
  no_provider_available, invalid_virtual_key, value_error, type_error, attribute_error, key_error,
  index_error, Result, ok, raise, ◌>>=◌,
}
use myown_llm_gateway.Models.Api.{ChatRequest, ChatResponse}
use myown_llm_gateway.Models.Provider.{ProviderConfig}
use myown_llm_gateway.Providers.Base.{
  Stream, finished, failed, line, HttpxError, timeout_exception, request_error, http_status_error,
  PostOutcome, response, post_raised, Incoming, closed, broken, received, map_httpx_error, post,
  wrap_parse_error, parse_response, iter_sse_lines,
}
use myown_llm_gateway.Providers.Client.{Client}
use myown_llm_gateway.Providers.OpenAi.{
  relay_data_lines, completions_call, complete, complete_stream,
}

-- `error.provider`
abbrev provider_of : ProviderError → String
provider_of (generic m p) = p
provider_of (timeout m p) = p
provider_of (auth m p) = p
provider_of (rate_limited m p r) = p

-- A provider error in the name of the adapter.
abbrev IsOwn : ProviderConfig → Exception → Type 0
IsOwn config (provider_error e) = provider_of e ≡ config.name
IsOwn config (no_provider_available a l) = ⊥
IsOwn config (invalid_virtual_key t) = ⊥
IsOwn config value_error = ⊥
IsOwn config type_error = ⊥
IsOwn config attribute_error = ⊥
IsOwn config key_error = ⊥
IsOwn config index_error = ⊥

provider_of-map_httpx_error :
    (config : ProviderConfig) (t : ℕ) (exc : HttpxError)
    → provider_of (map_httpx_error config t exc) ≡ config.name
unfolding map_httpx_error
provider_of-map_httpx_error config t (timeout_exception s) = refl
provider_of-map_httpx_error config t (request_error s) = refl
provider_of-map_httpx_error config t (http_status_error status retry_after) = ground arith

-- Only events are relayed, and the stream ends or fails with an error of the adapter.
abbrev pub IsEvents : ProviderConfig → Stream → Type 0
IsEvents config finished = Unit
IsEvents config (failed x) = IsOwn config x
IsEvents config (line l rest) = (starts_with l (codes "data: ") ≡ true) × IsEvents config rest

starts_with-append : (s t p : Text) → starts_with s p ≡ true → starts_with (append s t) p ≡ true
unfolding starts_with
starts_with-append s t [] h = refl
starts_with-append [] t (d ∷ p) h = absurd (ground arith)
starts_with-append (c ∷ s) t (d ∷ p) h = ground (arith, starts_with-append s t p)

relayed-IsEvents :
    (config : ProviderConfig) (t : ℕ) (incoming : Incoming)
    → IsEvents config (relay_data_lines (iter_sse_lines config t incoming))
unfolding relay_data_lines iter_sse_lines
relayed-IsEvents config t closed = tt
relayed-IsEvents config t (broken exc) = provider_of-map_httpx_error config t exc
relayed-IsEvents config t (received l rest) = elim (Bool-cases (starts_with l (codes "data: "))) [
  | inl event ↦
      rw event
        (starts_with-append l (10 ∷ 10 ∷ []) (codes "data: ") event, relayed-IsEvents config t rest)
  | inr other ↦ rw other (relayed-IsEvents config t rest)
]

-- Whatever the upstream sends, a stream of the adapter relays lines that start with "data: " alone,
-- and ends, or fails with a provider error in the adapter's own name.
pub complete_stream-IsEvents :
    {W : Type 0} (client : Client W) (context : Option String)
    (validate : Json → Result ChatResponse) (config : ProviderConfig) (headers : Dict String)
    (base : String) (request : ChatRequest) (w : W)
    → IsEvents config (complete_stream client context validate config headers base request w).0
unfolding complete_stream
complete_stream-IsEvents client context validate config headers base request w =
    relayed-IsEvents config config.timeout _

-- What is neither a `ValueError` nor a `KeyError`.
abbrev IsUnwrapped : Exception → Type 0
IsUnwrapped value_error = ⊥
IsUnwrapped key_error = ⊥
IsUnwrapped (provider_error e) = Unit
IsUnwrapped (no_provider_available a l) = Unit
IsUnwrapped (invalid_virtual_key t) = Unit
IsUnwrapped type_error = Unit
IsUnwrapped attribute_error = Unit
IsUnwrapped index_error = Unit

wrap_parse_error_cases :
    (config : ProviderConfig) (r : Result ChatResponse)
    → ((v : ChatResponse) × (r ≡ ok v) × (wrap_parse_error config r ≡ ok v))
      ⊎ ((x : Exception) × (wrap_parse_error config r ≡ raise x) × IsOwn config x)
      ⊎ ((x : Exception) × (r ≡ raise x) × (wrap_parse_error config r ≡ raise x) × IsUnwrapped x)
unfolding wrap_parse_error
wrap_parse_error_cases config (ok v) = inl (v, refl, refl)
wrap_parse_error_cases config (raise value_error) = inr (inl (_, refl, refl))
wrap_parse_error_cases config (raise key_error) = inr (inl (_, refl, refl))
wrap_parse_error_cases config (raise (provider_error e)) =
    inr (inr (provider_error e, refl, refl, tt))
wrap_parse_error_cases config (raise (no_provider_available a l)) =
    inr (inr (no_provider_available a l, refl, refl, tt))
wrap_parse_error_cases config (raise (invalid_virtual_key t)) =
    inr (inr (invalid_virtual_key t, refl, refl, tt))
wrap_parse_error_cases config (raise type_error) = inr (inr (type_error, refl, refl, tt))
wrap_parse_error_cases config (raise attribute_error) = inr (inr (attribute_error, refl, refl, tt))
wrap_parse_error_cases config (raise index_error) = inr (inr (index_error, refl, refl, tt))

module _ (config : ProviderConfig) (validate : Json → Result ChatResponse) where
  -- What the body of an answered call raises: `json()`, or the validation of what it reads.
  abbrev Raises : PostOutcome → Exception → Type 0
  Raises outcome x =
      (outcome ≡ response (raise x))
      ⊎ ((body : Json) × (outcome ≡ response (ok body)) × (validate body ≡ raise x))

  abbrev pub Settles : PostOutcome → Result ChatResponse → Type 0
  Settles outcome result =
      ((v : ChatResponse) × (body : Json) × (outcome ≡ response (ok body))
        × (validate body ≡ ok v)
        × (result ≡ ok v))
      ⊎ ((x : Exception) × (result ≡ raise x) × IsOwn config x)
      ⊎ ((x : Exception) × Raises outcome x × (result ≡ raise x) × IsUnwrapped x)

  post-Settles :
      (outcome : PostOutcome)
      → Settles outcome
          (post config config.timeout outcome >>= λ body. parse_response config body validate)
  unfolding post parse_response
  post-Settles (post_raised exc) =
      inr (inl (_, refl, provider_of-map_httpx_error config config.timeout exc))
  post-Settles (response (ok body)) = elim (wrap_parse_error_cases config (validate body)) [
    | inl (v, valid, same) ↦ inl (v, body, refl, valid, same)
    | inr (inl (x, same, own)) ↦ inr (inl (x, same, own))
    | inr (inr (x, raised, same, other)) ↦ inr (inr (x, inr (body, refl, raised), same, other))
  ]
  post-Settles (response (raise e)) = elim (wrap_parse_error_cases config (raise e)) [
    | inl (v, valid, same) ↦ absurd (ground arith)
    | inr (inl (x, same, own)) ↦ inr (inl (x, same, own))
    | inr (inr (x, raised, same, other)) ↦
        inr (inr (x, inl (ap (λ r. response r) (ground arith)), same, other))
  ]

-- A call of the adapter ends in one of three ways: with the validated body of the upstream's
-- answer; with a provider error in the adapter's own name, as at every failure that httpx reports;
-- or with an exception of reading the body that is neither a ValueError nor a KeyError.
pub complete-Settles :
    {W : Type 0} (client : Client W) (context : Option String)
    (validate : Json → Result ChatResponse) (config : ProviderConfig) (headers : Dict String)
    (base : String) (request : ChatRequest) (w : W)
    → let call = completions_call client context validate config headers request false base in
      Settles config validate
        (client.post call w).0
        (complete client context validate config headers base request w).0
unfolding complete
complete-Settles client context validate config headers base request w =
    post-Settles config validate _

-- ===== src/Services/Streaming/Source.antt =====
-- src/llm_gateway/services/streaming.py: where the lines of a relayed stream come from.
use myown_llm_gateway.Base.{
  String, Option, none, some, List, [], ◌∷◌, ◌++◌, ◌≡◌, refl, ◌⊎◌, inl, inr, ap, ◌∙◌, sym,
  append_assoc, append-nil,
}
use myown_llm_gateway.Base.Dict.{Dict}
use myown_llm_gateway.Base.Text.{Text}
use myown_llm_gateway.Core.Exceptions.{
  ProviderError, Exception, provider_error, no_provider_available, invalid_virtual_key, value_error,
  type_error, attribute_error, key_error, index_error,
}
use myown_llm_gateway.Models.Api.{ChatRequest}
use myown_llm_gateway.Providers.Base.{Stream, finished, failed, line, BaseProvider}
use myown_llm_gateway.Services.Router.{select_providers}
use myown_llm_gateway.Services.Fallback.Laws.{IsUncaught, names}
use myown_llm_gateway.Services.Streaming.{
  Relay, raised, relayed, relay, try_streams, stream_chat_completion,
}

module _ {W : Type 0} where
  abbrev IsIn : BaseProvider W → List (BaseProvider W) → Type 0
  IsIn p [] = ⊥
  IsIn p (q ∷ qs) = (p ≡ q) ⊎ IsIn p qs

  -- The whole stream of one provider, which had a line.
  abbrev pub IsOneSource : ChatRequest → List (BaseProvider W) → Relay W × W → Type 0
  IsOneSource request ps out =
      (p : BaseProvider W) × (w : W) × (l : Text) × (rest : Stream) × IsIn p ps
      × (p.stream_chat_completion request w ≡ (line l rest, out.1))
      × (out.0 ≡ relay p (line l rest))

  -- An exception of a provider that is no `ProviderError`, before the first line.
  abbrev pub PassedThrough : ChatRequest → List (BaseProvider W) → Relay W × W → Type 0
  PassedThrough request ps out =
      (p : BaseProvider W) × (w : W) × (x : Exception) × IsIn p ps
      × IsUncaught x
      × (p.stream_chat_completion request w ≡ (failed x, out.1))
      × (out.0 ≡ raised x)

  abbrev Sourced : ChatRequest → List (BaseProvider W) → List String → Relay W × W → Type 0
  Sourced request ps attempted out =
      ((last : Option ProviderError) × (out.0
          ≡ raised (no_provider_available (attempted ++ names ps) last)))
      ⊎ IsOneSource request ps out
      ⊎ PassedThrough request ps out

  later :
      (request : ChatRequest) (q : BaseProvider W) (ps : List (BaseProvider W))
      (attempted : List String) (out : Relay W × W)
      → Sourced request ps (attempted ++ q.config.name ∷ []) out
      → Sourced request (q ∷ ps) attempted out
  later request q ps attempted out (inl (last, e)) = inl (
    last,
    e
        ∙ ap (λ a. raised (no_provider_available a last))
            (append_assoc attempted (q.config.name ∷ []) (names ps)),
  )
  later request q ps attempted out (inr (inl (p, w, l, rest, here, called, same))) =
      inr (inl (p, w, l, rest, inr here, called, same))
  later request q ps attempted out (inr (inr (p, w, x, here, uncaught, called, same))) =
      inr (inr (p, w, x, inr here, uncaught, called, same))

  passed :
      (request : ChatRequest) (q : BaseProvider W) (ps : List (BaseProvider W))
      (attempted : List String) (w w' : W) (x : Exception)
      → q.stream_chat_completion request w ≡ (failed x, w')
      → IsUncaught x
      → Sourced request (q ∷ ps) attempted (raised x, w')
  passed request q ps attempted w w' x called uncaught =
      inr (inr (q, w, x, inl refl, uncaught, called, refl))

  -- The loop's step on the first provider's stream.
  abbrev resume :
      BaseProvider W
      → List (BaseProvider W)
      → ChatRequest
      → List String
      → Option ProviderError
      → Stream
      → W
      → Relay W × W
  resume p ps request attempted last_error stream w' = elim stream [
    | finished ↦ try_streams ps request (attempted ++ p.config.name ∷ []) last_error w'
    | failed (provider_error e) ↦
        try_streams ps request (attempted ++ p.config.name ∷ []) (some e) w'
    | failed e ↦ (raised e, w')
    | line l rest ↦ (relayed p l (relay p rest), w')
  ]

  resume-Sourced :
      (request : ChatRequest) (q : BaseProvider W) (ps : List (BaseProvider W))
      (attempted : List String) (last : Option ProviderError) (w w' : W) (stream : Stream)
      → q.stream_chat_completion request w ≡ (stream, w')
      → ((last : Option ProviderError)
          → Sourced request ps
              (attempted ++ q.config.name ∷ [])
              (try_streams ps request (attempted ++ q.config.name ∷ []) last w'))
      → Sourced request (q ∷ ps) attempted (resume q ps request attempted last stream w')
  unfolding relay
  resume-Sourced request q ps attempted last w w' finished called rest =
      (later request q ps attempted _ (rest last))
  resume-Sourced request q ps attempted last w w' (failed (provider_error e)) called rest =
      (later request q ps attempted _ (rest (some e)))
  resume-Sourced request q ps attempted last w w' (line l more) called rest =
      (inr (inl (q, w, l, more, inl refl, called, refl)))
  resume-Sourced request q ps attempted last w w' (failed (no_provider_available a b)) called rest =
      (passed request q ps attempted w w' (no_provider_available a b) called tt)
  resume-Sourced request q ps attempted last w w' (failed (invalid_virtual_key t)) called rest =
      (passed request q ps attempted w w' (invalid_virtual_key t) called tt)
  resume-Sourced request q ps attempted last w w' (failed value_error) called rest =
      (passed request q ps attempted w w' value_error called tt)
  resume-Sourced request q ps attempted last w w' (failed type_error) called rest =
      (passed request q ps attempted w w' type_error called tt)
  resume-Sourced request q ps attempted last w w' (failed attribute_error) called rest =
      (passed request q ps attempted w w' attribute_error called tt)
  resume-Sourced request q ps attempted last w w' (failed key_error) called rest =
      (passed request q ps attempted w w' key_error called tt)
  resume-Sourced request q ps attempted last w w' (failed index_error) called rest =
      (passed request q ps attempted w w' index_error called tt)

  try_streams-Sourced :
      (request : ChatRequest) (ps : List (BaseProvider W)) (attempted : List String)
      (last : Option ProviderError) (w : W)
      → Sourced request ps attempted (try_streams ps request attempted last w)
  unfolding try_streams
  try_streams-Sourced request [] attempted last w =
      inl (last, ap (λ a. raised (no_provider_available a last)) (sym (append-nil attempted)))
  try_streams-Sourced request (p ∷ ps) attempted last w =
      let called = p.stream_chat_completion request w in
      resume-Sourced request p ps attempted last w called.1 called.0 refl
        (λ last'. try_streams-Sourced request ps (attempted ++ p.config.name ∷ []) last' called.1)

pub stream_chat_completion_lem :
    {W : Type 0} (request : ChatRequest) (registry : Dict (BaseProvider W)) (w : W)
    → let ps = select_providers registry request.model in
      let out = stream_chat_completion request registry w in
      ((last : Option ProviderError) × (out.0 ≡ raised (no_provider_available (names ps) last)))
      ⊎ IsOneSource request ps out
      ⊎ PassedThrough request ps out
unfolding stream_chat_completion
stream_chat_completion_lem request registry w =
    try_streams-Sourced request (select_providers registry request.model) [] none w

-- ===== src/Services/Fallback/Laws.antt =====
-- src/llm_gateway/services/fallback.py: the runs of the loop, described step by step.
use myown_llm_gateway.Base.{
  String, Option, none, some, List, [], ◌∷◌, ◌++◌, ◌≡◌, refl, ◌⊎◌, inl, inr, map, append_assoc,
  append-nil, ap,
}
use myown_llm_gateway.Core.Exceptions.{
  ProviderError, Exception, provider_error, no_provider_available, invalid_virtual_key, value_error,
  type_error, attribute_error, key_error, index_error, Result, ok, raise,
}
use myown_llm_gateway.Models.Api.{ChatRequest, ChatResponse}
use myown_llm_gateway.Providers.Base.{BaseProvider}
use myown_llm_gateway.Services.Fallback.{try_providers, execute_with_fallback}

-- Not a `ProviderError`.
abbrev pub IsUncaught : Exception → Type 0
IsUncaught (provider_error e) = ⊥
IsUncaught (no_provider_available a l) = Unit
IsUncaught (invalid_virtual_key s) = Unit
IsUncaught value_error = Unit
IsUncaught type_error = Unit
IsUncaught attribute_error = Unit
IsUncaught key_error = Unit
IsUncaught index_error = Unit

module _ {W : Type 0} where
  abbrev pub names : List (BaseProvider W) → List String
  names = map (λ p. p.config.name)

  -- Every provider of the list fails with a `ProviderError`, called in order from the world `w`
  -- on; `w'` is the world after the last one and `last'` its error.
  abbrev pub Falls :
      ChatRequest
      → List (BaseProvider W)
      → W
      → Option ProviderError
      → W
      → Option ProviderError
      → Type 0
  Falls request [] w last w' last' = (w ≡ w') × (last ≡ last')
  Falls request (p ∷ ps) w last w'' last'' =
      (e : ProviderError) × (w' : W) × (p.chat_completion request w
        ≡ (raise (provider_error e), w'))
      × Falls request ps w' (some e) w'' last''

  -- The providers split at the one that ended the loop: those before it failed, and the call of
  -- this one, from the world that they left, ended as `result` and left `w'`.
  pub record EndsAt (request : ChatRequest) (providers : List (BaseProvider W)) (w : W)
      (last : Option ProviderError) (p : BaseProvider W) (result : Result ChatResponse) (w' : W)
      : Type 0 where
    pub before : List (BaseProvider W)
    pub after : List (BaseProvider W)
    pub split : providers ≡ before ++ p ∷ after
    pub between : W
    last_before : Option ProviderError
    pub failed : Falls request before w last between last_before
    pub called : p.chat_completion request between ≡ (result, w')

  -- The three ways in which the loop ends, over what was attempted before.
  abbrev Explained :
      ChatRequest
      → List (BaseProvider W)
      → List String
      → Option ProviderError
      → W
      → Result (BaseProvider W × ChatResponse) × W
      → Type 0
  Explained request ps attempted last w outcome =
      ((w' : W) × (last' : Option ProviderError) × Falls request ps w last w' last'
        × (outcome ≡ (raise (no_provider_available (attempted ++ names ps) last'), w')))
      ⊎ ((p : BaseProvider W) × (r : ChatResponse) × (w' : W) × EndsAt request ps w last p (ok r) w'
          × (outcome ≡ (ok (p, r), w')))
      ⊎ ((p : BaseProvider W) × (x : Exception) × (w' : W) × IsUncaught x
          × EndsAt request ps w last p (raise x) w'
          × (outcome ≡ (raise x, w')))

  -- How the answer of one provider goes on.
  dispatch :
      BaseProvider W
      → List (BaseProvider W)
      → ChatRequest
      → List String
      → Result ChatResponse × W
      → Result (BaseProvider W × ChatResponse) × W
  unfolding try_providers
  dispatch p ps request attempted (ok r, w') = (ok (p, r), w')
  dispatch p ps request attempted (raise (provider_error e), w') =
      try_providers ps request (attempted ++ p.config.name ∷ []) (some e) w'
  dispatch p ps request attempted (raise x, w') = (raise x, w')

  resume :
      BaseProvider W
      → List (BaseProvider W)
      → ChatRequest
      → List String
      → Result ChatResponse × W
      → Result (BaseProvider W × ChatResponse) × W
  unfolding try_providers
  resume p ps request attempted a = elim a.0 [
    | ok response ↦ (ok (p, response), a.1)
    | raise (provider_error e) ↦
        try_providers ps request (attempted ++ p.config.name ∷ []) (some e) a.1
    | raise e ↦ (raise e, a.1)
  ]

  resume-dispatch :
      (p : BaseProvider W) (ps : List (BaseProvider W)) (request : ChatRequest)
      (attempted : List String) (a : Result ChatResponse × W)
      → resume p ps request attempted a ≡ dispatch p ps request attempted a
  unfolding dispatch resume
  resume-dispatch p ps request attempted (ok r, w') = refl
  resume-dispatch p ps request attempted (raise (provider_error x), w') = refl
  resume-dispatch p ps request attempted (raise x, w') = refl

  try-dispatch :
      (p : BaseProvider W) (ps : List (BaseProvider W)) (request : ChatRequest)
      (attempted : List String) (last : Option ProviderError) (w : W)
      → try_providers (p ∷ ps) request attempted last w
        ≡ dispatch p ps request attempted (p.chat_completion request w)
  unfolding resume
  try-dispatch p ps request attempted last w =
      resume-dispatch p ps request attempted (p.chat_completion request w)

  -- One more failed provider in front.
  EndsAt-cons :
      (request : ChatRequest) (q : BaseProvider W) (ps : List (BaseProvider W)) (w w1 : W)
      (last : Option ProviderError) (e : ProviderError) {p : BaseProvider W}
      {result : Result ChatResponse} {w' : W}
      → q.chat_completion request w ≡ (raise (provider_error e), w1)
      → EndsAt request ps w1 (some e) p result w'
      → EndsAt request (q ∷ ps) w last p result w'
  EndsAt-cons request q ps w w1 last e h s = record {
    before = q ∷ s.before;
    after = s.after;
    split = ap (◌∷◌ q) s.split;
    between = s.between;
    last_before = s.last_before;
    failed = (e, w1, h, s.failed);
    called = s.called;
  }

  ends_here :
      (request : ChatRequest) (p : BaseProvider W) (ps : List (BaseProvider W)) (w : W)
      (last : Option ProviderError) {result : Result ChatResponse} {w' : W}
      → p.chat_completion request w ≡ (result, w')
      → EndsAt request (p ∷ ps) w last p result w'
  ends_here request p ps w last h = record {
    before = [];
    after = ps;
    split = refl;
    between = w;
    last_before = last;
    failed = (refl, refl);
    called = h;
  }

  Explained-cons :
      (request : ChatRequest) (q : BaseProvider W) (ps : List (BaseProvider W))
      (attempted : List String) (w w1 : W) (last : Option ProviderError) (e : ProviderError)
      (outcome : Result (BaseProvider W × ChatResponse) × W)
      → q.chat_completion request w ≡ (raise (provider_error e), w1)
      → Explained request ps (attempted ++ q.config.name ∷ []) (some e) w1 outcome
      → Explained request (q ∷ ps) attempted last w outcome
  Explained-cons request q ps attempted w w1 last e outcome h (inl (w', l, f, eq)) =
      inl (w', l, (e, w1, h, f), rw append_assoc at eq)
  Explained-cons request q ps attempted w w1 last e outcome h (inr (inl (p, r, w', s, eq))) =
      inr (inl (p, r, w', EndsAt-cons request q ps w w1 last e h s, eq))
  Explained-cons request q ps attempted w w1 last e outcome h (inr (inr (p, x, w', u, s, eq))) =
      inr (inr (p, x, w', u, EndsAt-cons request q ps w w1 last e h s, eq))

  dispatch-Explained :
      (p : BaseProvider W) (ps : List (BaseProvider W)) (request : ChatRequest)
      (attempted : List String) (last : Option ProviderError) (w : W) (a : Result ChatResponse × W)
      → p.chat_completion request w ≡ a
      → ((att : List String) (l : Option ProviderError) (w' : W)
          → Explained request ps att l w' (try_providers ps request att l w'))
      → Explained request (p ∷ ps) attempted last w (dispatch p ps request attempted a)
  unfolding dispatch
  dispatch-Explained p ps request attempted last w (ok r, w') e rest =
      inr (inl (p, r, w', ends_here request p ps w last e, refl))
  dispatch-Explained p ps request attempted last w (raise (provider_error x), w') e rest =
      Explained-cons request p ps attempted w w' last x _ e (rest _ (some x) w')
  dispatch-Explained p ps request attempted last w (raise x, w') e rest =
      inr (inr (p, x, w', tt, ends_here request p ps w last e, refl))

  try-Explained :
      (ps : List (BaseProvider W)) (request : ChatRequest) (attempted : List String)
      (last : Option ProviderError) (w : W)
      → Explained request ps attempted last w (try_providers ps request attempted last w)
  unfolding dispatch
  try-Explained [] request attempted last w =
      inl (w, last, (refl, refl), rw (append-nil attempted) refl)
  try-Explained (p ∷ ps) request attempted last w =
      rw (try-dispatch p ps request attempted last w) (
        dispatch-Explained p ps request attempted last w (p.chat_completion request w) refl
          (λ a l w'. try-Explained ps request a l w'))

  -- Every call ends in one of three ways. All providers failed with a `ProviderError`, and the
  -- chain's error names all of them in order, and carries the last error. Or one provider answered
  -- after those before it had failed, its answer is returned, and no provider behind it was
  -- called. Or, after such failures, one raised something else, which is passed on unchanged.
  pub execute_with_fallback-Explained :
      (ps : List (BaseProvider W)) (request : ChatRequest) (w : W)
      → ((w' : W) × (last : Option ProviderError) × Falls request ps w none w' last
          × (execute_with_fallback ps request w
              ≡ (raise (no_provider_available (names ps) last), w')))
        ⊎ ((p : BaseProvider W) × (r : ChatResponse) × (w' : W) × EndsAt request ps w none p
              (ok r)
              w'
            × (execute_with_fallback ps request w ≡ (ok (p, r), w')))
        ⊎ ((p : BaseProvider W) × (x : Exception) × (w' : W) × IsUncaught x
            × EndsAt request ps w none p (raise x) w'
            × (execute_with_fallback ps request w ≡ (raise x, w')))
  unfolding execute_with_fallback
  execute_with_fallback-Explained ps request w = try-Explained ps request [] none w

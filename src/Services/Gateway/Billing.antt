-- ===== src/Services/Gateway/Billing.antt =====
-- src/llm_gateway/services/gateway.py: the rows that a request leaves to be written.
use myown_llm_gateway.Base.{ℕ, String, Option, none, some, List, [], ◌∷◌, ◌++◌, ◌≡◌, refl, ◌∙◌, ap}
use myown_llm_gateway.Base.Dict.{Dict, lookup}
use myown_llm_gateway.Core.Exceptions.{Result, ok, raise}
use myown_llm_gateway.Models.Api.{ChatRequest, ChatResponse}
use myown_llm_gateway.Models.Provider.{free, pricing_for}
use myown_llm_gateway.Models.Usage.{UsageRecord}
use myown_llm_gateway.Providers.Base.{BaseProvider}
use myown_llm_gateway.Services.Cache.{Codec, build_cache_key}
use myown_llm_gateway.Services.Metrics.{build_usage_record}
use myown_llm_gateway.Services.Router.{select_providers}
use myown_llm_gateway.Services.Usage.{Task, persist, record_served, fire_and_forget}
use myown_llm_gateway.Services.SingleFlight.{State, Run, latency_ms}
use myown_llm_gateway.Services.Gateway.{
  record_cache_style_usage, after_future, follow, clean_up, finish, conclude, lead, after_wait,
  wait_or_lead, route, join_or_route, after_cache, handle_chat_completion,
}

-- A response leaves one row to be written, for the key and the response's model and tokens; an
-- exception, and a request that hangs, leave none.
abbrev pub IsBilled : ℕ → Option (Result ChatResponse) → List Task → List Task → Type 0
IsBilled key (some (ok v)) before after =
    (r : UsageRecord) × (r.virtual_key_id ≡ key)
    × (r.model ≡ v.model)
    × (r.input_tokens ≡ v.usage.prompt_tokens)
    × (r.output_tokens ≡ v.usage.completion_tokens)
    × (after ≡ before ++ persist r ∷ [])
IsBilled key (some (raise e)) before after = after ≡ before
IsBilled key none before after = after ≡ before

-- What the others do does not count among the rows of this request.
abbrev pub IsQuiet : {W : Type 0} → Run W → Type 0
IsQuiet {W} run = (i : ℕ) (s : State W) → (run.others i s).effects.pending ≡ s.effects.pending

module _ {W : Type 0} (codec : Codec) (ttl : ℕ) (run : Run W) (cache_key : String) (key : ℕ)
    (quiet : IsQuiet run) (before : List Task) where
  abbrev Bills : Option (Result ChatResponse) × State W → Type 0
  Bills out = IsBilled key out.0 before out.1.effects.pending

  abbrev Starts : State W → Type 0
  Starts s = s.effects.pending ≡ before

  served-Bills :
      (response : ChatResponse) (now : ℕ) (s : State W)
      → Starts s
      → Bills (some (ok response), record_cache_style_usage key response run.started now s)
  unfolding record_cache_style_usage record_served fire_and_forget build_usage_record
  served-Bills response now s start =
      let r =
        build_usage_record key "cache" free response.model response.usage
          (latency_ms run.started now) in
      (r, refl, refl, refl, refl, ap (λ p. p ++ persist r ∷ []) start)

  clean_up-Starts :
      (lock_token : Option String) (s : State W)
      → Starts s
      → Starts (clean_up codec ttl run cache_key lock_token s)
  unfolding clean_up
  clean_up-Starts none s start = start
  clean_up-Starts (some token) s start = quiet 5 _ ∙ start

  conclude-Bills :
      (request : ChatRequest) (lock_token : Option String)
      (result : Result (BaseProvider W × ChatResponse)) (s : State W)
      → Starts s
      → let out = conclude codec ttl run cache_key request key lock_token result s in
        Bills (some out.0, out.1)
  unfolding conclude finish record_served fire_and_forget build_usage_record
  conclude-Bills request lock_token (raise exc) s start = clean_up-Starts lock_token _ start
  conclude-Bills request lock_token (ok (p, response)) s start =
      let r =
        build_usage_record key p.config.name (pricing_for p.config request.model) response.model
          response.usage (latency_ms run.started (run.clock 6)) in
      (
        r,
        refl,
        refl,
        refl,
        refl,
        ap (λ p. p ++ persist r ∷ []) (quiet 6 _ ∙ clean_up-Starts lock_token s start),
      )

  lead-Bills :
      (request : ChatRequest) (providers : List (BaseProvider W)) (lock_token : Option String)
      (s : State W)
      → Starts s
      → let out = lead codec ttl run cache_key request key providers lock_token s in
        Bills (some out.0, out.1)
  unfolding lead
  lead-Bills request providers lock_token s start =
      conclude-Bills request lock_token _ _ (quiet 4 _ ∙ start)

  after_wait-Bills :
      (request : ChatRequest) (providers : List (BaseProvider W))
      (waited : Option (Option ChatResponse)) (s : State W)
      → Starts s
      → Bills (after_wait codec ttl run cache_key request key providers waited s)
  unfolding after_wait
  after_wait-Bills request providers (some (some response)) s start =
      served-Bills response (run.clock 9) s start
  after_wait-Bills request providers (some none) s start = lead-Bills request providers none s start
  after_wait-Bills request providers none s start = start

  wait_or_lead-Bills :
      (request : ChatRequest) (providers : List (BaseProvider W)) (lock_token : Option String)
      (s : State W)
      → Starts s
      → Bills (wait_or_lead codec ttl run cache_key request key providers lock_token s)
  unfolding wait_or_lead
  wait_or_lead-Bills request providers (some token) s start =
      lead-Bills request providers (some token) s start
  wait_or_lead-Bills request providers none s start =
      after_wait-Bills request providers _ _ (quiet 3 s ∙ start)

  route-Bills :
      (request : ChatRequest) (providers : List (BaseProvider W)) (s : State W)
      → Starts s
      → Bills (route codec ttl run cache_key request key providers s)
  unfolding route
  route-Bills request [] s start = start
  route-Bills request (p ∷ ps) s start = wait_or_lead-Bills request (p ∷ ps) _ _ (quiet 2 _ ∙ start)

  after_future-Bills :
      (result : Option (Result ChatResponse)) (s : State W)
      → Starts s
      → Bills (after_future codec ttl run key result s)
  unfolding after_future
  after_future-Bills none s start = start
  after_future-Bills (some (raise e)) s start = start
  after_future-Bills (some (ok response)) s start = served-Bills response (run.clock 9) s start

  join_or_route-Bills :
      (request : ChatRequest) (registry : Dict (BaseProvider W)) (future : Option ℕ) (s : State W)
      → Starts s
      → Bills (join_or_route codec ttl run cache_key request registry key future s)
  unfolding join_or_route follow
  join_or_route-Bills request registry (some future) s start =
      after_future-Bills _ _ (quiet 1 s ∙ start)
  join_or_route-Bills request registry none s start =
      route-Bills request (select_providers registry request.model) s start

  after_cache-Bills :
      (request : ChatRequest) (registry : Dict (BaseProvider W)) (cached : Option ChatResponse)
      (s : State W)
      → Starts s
      → Bills (after_cache codec ttl run cache_key request registry key cached s)
  unfolding after_cache
  after_cache-Bills request registry (some response) s start =
      served-Bills response (run.clock 9) s start
  after_cache-Bills request registry none s start =
      join_or_route-Bills request registry (lookup cache_key s.inflight) s start

-- However a request is served, from the cache, by a request in flight, by another replica or by a
-- provider, it leaves one row to be written, for its key and with the response's model and tokens;
-- a request that ends in an exception leaves none. The others' rows are not counted.
pub handle_chat_completion-IsBilled :
    {W : Type 0} (codec : Codec) (ttl : ℕ) (run : Run W) (digest : ChatRequest × Option ℕ → String)
    (request : ChatRequest) (registry : Dict (BaseProvider W)) (key : ℕ) (s : State W)
    → IsQuiet run
    → let out = handle_chat_completion codec ttl run digest request registry key s in
      IsBilled key out.0 s.effects.pending out.1.effects.pending
unfolding handle_chat_completion
handle_chat_completion-IsBilled codec ttl run digest request registry key s quiet =
    after_cache-Bills codec ttl run (build_cache_key digest request (some key)) key quiet
      s.effects.pending request registry _ _ (quiet 0 _)

-- ===== src/Services/Gateway/InFlight.antt =====
-- src/llm_gateway/services/gateway.py: the in-flight table.
use myown_llm_gateway.Base.{
  ℕ, String, Option, none, some, List, [], ◌∷◌, ◌≡◌, ◌≢◌, arith, eq_iff, eq_refl,
}
use myown_llm_gateway.Base.Dict.{Dict, lookup}
use myown_llm_gateway.Core.Exceptions.{Result, ok, raise}
use myown_llm_gateway.Models.Api.{ChatRequest, ChatResponse}
use myown_llm_gateway.Providers.Base.{BaseProvider}
use myown_llm_gateway.Services.Cache.{Codec, build_cache_key}
use myown_llm_gateway.Services.Cache.Lock.{lookup-delete}
use myown_llm_gateway.Services.SingleFlight.{State, Run, remove_own}
use myown_llm_gateway.Services.Gateway.{
  record_cache_style_usage, after_future, follow, clean_up, finish, conclude, lead, after_wait,
  wait_or_lead, route, join_or_route, after_cache, handle_chat_completion,
}

-- The table does not hold the future for the key.
abbrev pub IsFree : {W : Type 0} → String → ℕ → State W → Type 0
IsFree cache_key future s = lookup cache_key s.inflight ≢ some future

lookup-remove_own :
    (cache_key : String) (future : ℕ) (inflight : Dict ℕ)
    → lookup cache_key (remove_own cache_key future inflight) ≢ some future
unfolding remove_own
lookup-remove_own cache_key future inflight =
    ground (arith, lookup-delete cache_key cache_key inflight, eq_refl cache_key)

-- The future of another request stays, whoever cleans up.
remove_own_foreign :
    (cache_key key : String) (future f : ℕ) (inflight : Dict ℕ)
    → f ≢ future
    → lookup key inflight ≡ some f
    → lookup key (remove_own cache_key future inflight) ≡ some f
unfolding remove_own
remove_own_foreign cache_key key future f inflight ne here =
    ground (arith, lookup-delete cache_key key inflight, eq_iff cache_key key)

module _ {W : Type 0} (codec : Codec) (ttl : ℕ) (run : Run W) (cache_key : String)
    (keeps : (i : ℕ) (s : State W)
      → IsFree cache_key run.future s
      → IsFree cache_key run.future (run.others i s)) where
  abbrev Free : State W → Type 0
  Free s = IsFree cache_key run.future s

  clean_up-Free :
      (lock_token : Option String) (s : State W)
      → Free (clean_up codec ttl run cache_key lock_token s)
  unfolding clean_up
  clean_up-Free none s = lookup-remove_own cache_key run.future s.inflight
  clean_up-Free (some token) s = keeps 5 _ (lookup-remove_own cache_key run.future s.inflight)

  conclude-Free :
      (request : ChatRequest) (key : ℕ) (lock_token : Option String)
      (result : Result (BaseProvider W × ChatResponse)) (s : State W)
      → Free (conclude codec ttl run cache_key request key lock_token result s).1
  unfolding conclude finish
  conclude-Free request key lock_token (raise exc) s = clean_up-Free lock_token _
  conclude-Free request key lock_token (ok (p, response)) s = keeps 6 _ (clean_up-Free lock_token s)

  lead-Free :
      (request : ChatRequest) (key : ℕ) (providers : List (BaseProvider W))
      (lock_token : Option String) (s : State W)
      → Free (lead codec ttl run cache_key request key providers lock_token s).1
  unfolding lead
  lead-Free request key providers lock_token s = conclude-Free request key lock_token _ _

  served-Free :
      (key : ℕ) (response : ChatResponse) (started now : ℕ) (s : State W)
      → Free s
      → Free (record_cache_style_usage key response started now s)
  unfolding record_cache_style_usage
  served-Free key response started now s free = free

  after_wait-Free :
      (request : ChatRequest) (key : ℕ) (providers : List (BaseProvider W))
      (waited : Option (Option ChatResponse)) (s : State W)
      → Free s
      → Free (after_wait codec ttl run cache_key request key providers waited s).1
  unfolding after_wait
  after_wait-Free request key providers (some (some response)) s free =
      served-Free key response run.started (run.clock 9) s free
  after_wait-Free request key providers (some none) s free = lead-Free request key providers none s
  after_wait-Free request key providers none s free = free

  wait_or_lead-Free :
      (request : ChatRequest) (key : ℕ) (providers : List (BaseProvider W))
      (lock_token : Option String) (s : State W)
      → Free s
      → Free (wait_or_lead codec ttl run cache_key request key providers lock_token s).1
  unfolding wait_or_lead
  wait_or_lead-Free request key providers (some token) s free =
      lead-Free request key providers (some token) s
  wait_or_lead-Free request key providers none s free =
      after_wait-Free request key providers _ _ (keeps 3 s free)

  route-Free :
      (request : ChatRequest) (key : ℕ) (providers : List (BaseProvider W)) (s : State W)
      → Free s
      → Free (route codec ttl run cache_key request key providers s).1
  unfolding route
  route-Free request key [] s free = free
  route-Free request key (p ∷ ps) s free =
      wait_or_lead-Free request key (p ∷ ps) _ _ (keeps 2 _ free)

  after_future-Free :
      (key : ℕ) (result : Option (Result ChatResponse)) (s : State W)
      → Free s
      → Free (after_future codec ttl run key result s).1
  unfolding after_future
  after_future-Free key none s free = free
  after_future-Free key (some (raise e)) s free = free
  after_future-Free key (some (ok response)) s free =
      served-Free key response run.started (run.clock 9) s free

  join_or_route-Free :
      (request : ChatRequest) (registry : Dict (BaseProvider W)) (key : ℕ) (future : Option ℕ)
      (s : State W)
      → Free s
      → Free (join_or_route codec ttl run cache_key request registry key future s).1
  unfolding join_or_route follow
  join_or_route-Free request registry key (some future) s free =
      after_future-Free key _ _ (keeps 1 s free)
  join_or_route-Free request registry key none s free = route-Free request key _ s free

  after_cache-Free :
      (request : ChatRequest) (registry : Dict (BaseProvider W)) (key : ℕ)
      (cached : Option ChatResponse) (s : State W)
      → Free s
      → Free (after_cache codec ttl run cache_key request registry key cached s).1
  unfolding after_cache
  after_cache-Free request registry key (some response) s free =
      served-Free key response run.started (run.clock 9) s free
  after_cache-Free request registry key none s free =
      join_or_route-Free request registry key (lookup cache_key s.inflight) s free

-- Whatever the others do at the awaits, if they never register this request's future: when the
-- request has ended, with a response or with an exception, and also when it hangs on another's
-- future, the in-flight table does not hold its future for its cache key.
pub handle_chat_completion-IsFree :
    {W : Type 0} (codec : Codec) (ttl : ℕ) (run : Run W) (digest : ChatRequest × Option ℕ → String)
    (request : ChatRequest) (registry : Dict (BaseProvider W)) (key : ℕ) (s : State W)
    → ((i : ℕ) (s : State W)
        → IsFree (build_cache_key digest request (some key)) run.future s
        → IsFree (build_cache_key digest request (some key)) run.future (run.others i s))
    → IsFree (build_cache_key digest request (some key)) run.future s
    → IsFree
        (build_cache_key digest request (some key))
        run.future
        (handle_chat_completion codec ttl run digest request registry key s).1
unfolding handle_chat_completion
handle_chat_completion-IsFree codec ttl run digest request registry key s keeps free =
    after_cache-Free codec ttl run (build_cache_key digest request (some key)) keeps request
      registry key _ _ (keeps 0 _ free)

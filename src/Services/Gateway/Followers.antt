-- ===== src/Services/Gateway/Followers.antt =====
-- src/llm_gateway/services/gateway.py: the requests that await one in flight.
use myown_llm_gateway.Base.{ℕ, String, Option, none, some, List, ◌∷◌, ==_iff, ◌≡◌, arith}
use myown_llm_gateway.Core.Exceptions.{Result, ok, raise}
use myown_llm_gateway.Models.Api.{ChatRequest, ChatResponse}
use myown_llm_gateway.Providers.Base.{BaseProvider}
use myown_llm_gateway.Services.Cache.{Codec}
use myown_llm_gateway.Services.SingleFlight.{State, Run, result_of}
use myown_llm_gateway.Services.Gateway.{after_future, follow, clean_up, finish, conclude, lead}

-- What the others do at the awaits of a run keeps the result of a future.
abbrev pub Keeps : {W : Type 0} → ℕ → Run W → Type 0
Keeps {W} future run =
    (i : ℕ) (s : State W) (result : Result ChatResponse)
    → result_of future s.futures ≡ some result
    → result_of future (run.others i s).futures ≡ some result

result_of_first :
    (future : ℕ) (result : Result ChatResponse) (fs : List (ℕ × Result ChatResponse))
    → result_of future ((future, result) ∷ fs) ≡ some result
result_of_first future result fs = ground (arith, ==_iff future future)

module _ {W : Type 0} (codec : Codec) (ttl : ℕ) (run : Run W) (keeps : Keeps run.future run)
    (cache_key : String) (request : ChatRequest) (key : ℕ) where
  clean_up-result :
      (lock_token : Option String) (result : Result ChatResponse) (s : State W)
      → result_of run.future s.futures ≡ some result
      → result_of run.future (clean_up codec ttl run cache_key lock_token s).futures ≡ some result
  unfolding clean_up
  clean_up-result none result s there = there
  clean_up-result (some token) result s there = keeps 5 _ result there

  conclude-result :
      (lock_token : Option String) (result : Result (BaseProvider W × ChatResponse)) (s : State W)
      → let out = conclude codec ttl run cache_key request key lock_token result s in
        result_of run.future out.1.futures ≡ some out.0
  unfolding conclude finish
  conclude-result lock_token (raise exc) s =
      clean_up-result lock_token (raise exc) _ (result_of_first run.future (raise exc) s.futures)
  conclude-result lock_token (ok (p, response)) s =
      keeps 6 _ (ok response) (result_of_first run.future (ok response) _)

  lead-result :
      (providers : List (BaseProvider W)) (lock_token : Option String) (s : State W)
      → let out = lead codec ttl run cache_key request key providers lock_token s in
        result_of run.future out.1.futures ≡ some out.0
  unfolding lead
  lead-result providers lock_token s = conclude-result lock_token _ _

after_future_answer :
    {W : Type 0} (codec : Codec) (ttl : ℕ) (run : Run W) (key : ℕ)
    (o : Option (Result ChatResponse)) (result : Result ChatResponse) (s : State W)
    → o ≡ some result
    → (after_future codec ttl run key o s).0 ≡ some result
unfolding after_future
after_future_answer codec ttl run key none result s e = e
after_future_answer codec ttl run key (some (raise exc)) result s e = e
after_future_answer codec ttl run key (some (ok response)) result s e = e

-- A request that found another's future in flight ends once that one has called the providers,
-- with the same response or the same exception, on every branch, if nobody else sets or drops the
-- future's result.
pub follow-lead :
    {W : Type 0} (codec : Codec) (ttl : ℕ) (leader follower : Run W) (cache_key : String)
    (request : ChatRequest) (key key' : ℕ) (providers : List (BaseProvider W))
    (lock_token : Option String) (s : State W)
    → Keeps leader.future leader
    → Keeps leader.future follower
    → let led = lead codec ttl leader cache_key request key providers lock_token s in
      (follow codec ttl follower key' leader.future led.1).0 ≡ some led.0
unfolding follow
follow-lead codec ttl leader follower cache_key request key key' providers lock_token s keeps
      keeps' =
    let led = lead codec ttl leader cache_key request key providers lock_token s in
    after_future_answer codec ttl follower key' _ led.0 _ (
      keeps' 1 led.1 led.0
        (lead-result codec ttl leader keeps cache_key request key providers lock_token s))

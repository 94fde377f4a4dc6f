-- ===== src/Tests/Gateway.antt =====
-- services/gateway.py and routers/chat.py on a concrete request.
use myown_llm_gateway.Base.{
  ℕ, ◌+◌, String, Option, some, [], ◌∷◌, ◌++◌, ◌≡◌, refl, arith, any, not, null, is_none,
}
use myown_llm_gateway.Base.Int.{pos}
use myown_llm_gateway.Base.Dict.{Dict, lookup}
use myown_llm_gateway.Core.Exceptions.{ok}
use myown_llm_gateway.Core.RateLimiter.{answered}
use myown_llm_gateway.Models.Api.{ChatRequest}
use myown_llm_gateway.Models.Usage.{UsageRecord}
use myown_llm_gateway.Providers.Base.{BaseProvider, finished}
use myown_llm_gateway.Providers.Factory.Registry.{all_providers}
use myown_llm_gateway.Services.Cache.{Codec, build_cache_key}
use myown_llm_gateway.Services.Cache.Waiting.{Answer, entry}
use myown_llm_gateway.Services.Fallback.{execute_with_fallback}
use myown_llm_gateway.Services.Prometheus.{no_metrics}
use myown_llm_gateway.Services.Router.{serves, select_providers}
use myown_llm_gateway.Services.Usage.{persist, Effects}
use myown_llm_gateway.Services.SingleFlight.{State, Run}
use myown_llm_gateway.Services.Gateway.{lead, conclude, follow, handle_chat_completion}
use myown_llm_gateway.Services.Gateway.InFlight.{IsFree, handle_chat_completion-IsFree}
use myown_llm_gateway.Services.Gateway.Billing.{IsBilled, handle_chat_completion-IsBilled}
use myown_llm_gateway.Services.Gateway.Repeat.{handle_chat_completion_repeated}
use myown_llm_gateway.Services.Gateway.Followers.{follow-lead}
use myown_llm_gateway.Routers.Http.{reply}
use myown_llm_gateway.Routers.Chat.Guards.{reject_unknown_streaming_model}
use myown_llm_gateway.Routers.Chat.Completions.{chat_completions}
use myown_llm_gateway.Routers.Chat.Logged.{IsLogged, chat_completions-IsLogged}
use myown_llm_gateway.Routers.Models.{list_models, get_model}
use myown_llm_gateway.Routers.Models.Owners.{is_reply, get_model_agrees}
use myown_llm_gateway.Tests.Samples.{request, response}

-- The world counts the calls.
abbrev provider : BaseProvider ℕ
provider = record {
  config = record {
    name = "local";
    base_url = "http://localhost";
    supported_models = "m" ∷ [];
    priority = pos 0;
    timeout = 1000;
    model_pricing = [];
  };
  chat_completion = λ request calls. (ok response, calls + 1);
  stream_chat_completion = λ request calls. (finished, calls + 1);
}

abbrev pub one_provider : Dict (BaseProvider ℕ)
one_provider = ("local", provider) ∷ []

abbrev pub codec : Codec
codec = record { encode = λ v. []; decode = λ raw. some response }

abbrev pub digest : ChatRequest × Option ℕ → String
digest a = "digest"

-- Nobody else is there.
abbrev pub run : Run ℕ
run = record {
  started = 0;
  clock = λ i. 1000;
  read = answered;
  discarded = answered;
  acquired = answered;
  released = answered;
  written = answered;
  token = "token";
  future = 7;
  rounds = λ i. record { clock = 0; answer = Answer.nothing };
  others = λ i s. s;
}

abbrev pub state : State ℕ
state = record {
  redis = record { responses = []; locks = [] };
  effects = record { metrics = no_metrics; pending = [] };
  inflight = [];
  futures = [];
  world = 0;
}

handle_chat_completion-IsFree_example :
    IsFree "digest" 7 (handle_chat_completion codec 300 run digest request one_provider 1 state).1
unfolding build_cache_key
handle_chat_completion-IsFree_example =
    handle_chat_completion-IsFree codec 300 run digest request one_provider 1 state
      (λ i s free. free) (ground arith)

handle_chat_completion-IsBilled_example :
    let out = handle_chat_completion codec 300 run digest request one_provider 1 state in
    IsBilled 1 out.0 [] out.1.effects.pending
handle_chat_completion-IsBilled_example =
    handle_chat_completion-IsBilled codec 300 run digest request one_provider 1 state (λ i s. refl)

handle_chat_completion_repeated_example :
    let first = lead codec 300 run "digest" request 1 (provider ∷ []) (some "token") state in
    let second = handle_chat_completion codec 300 run digest request one_provider 1 first.1 in
    (second.0 ≡ some (ok response))
    × (second.1.world ≡ first.1.world)
    × ((r : UsageRecord) × (r.estimated_cost ≡ 0)
        × (r.provider ≡ "cache")
        × (second.1.effects.pending ≡ first.1.effects.pending ++ persist r ∷ []))
unfolding build_cache_key
handle_chat_completion_repeated_example =
    handle_chat_completion_repeated codec 300 run run digest request one_provider 1 (provider ∷ [])
      (some "token") state response (λ i s. refl) (λ i s. refl) refl refl refl (omega arith)
      (unfold lead conclude execute_with_fallback in refl)

follow-lead_example :
    let led = lead codec 300 run "digest" request 1 (provider ∷ []) (some "token") state in
    (follow codec 300 run 1 7 led.1).0 ≡ some led.0
follow-lead_example =
    follow-lead codec 300 run run "digest" request 1 1 (provider ∷ []) (some "token") state
      (λ i s result there. there) (λ i s result there. there)

chat_completions-IsLogged_example :
    let out = chat_completions codec 300 run digest 4096 request one_provider 1 state in
    IsLogged 1 "m" out.0 [] out.1.effects.pending
chat_completions-IsLogged_example =
    chat_completions-IsLogged codec 300 run digest one_provider 1 4096 request state (λ i s. refl)

abbrev effects : Effects
effects = record { metrics = no_metrics; pending = [] }

get_model_agrees_example :
    let known = any (serves "m") (all_providers one_provider) in
    (is_reply (get_model one_provider "m") ≡ known)
    × (is_none (reject_unknown_streaming_model request one_provider 1 5 effects).0 ≡ known)
    × (not (null (select_providers one_provider "m")) ≡ known)
    × ((owner : String)
        → lookup "m" (list_models one_provider) ≡ some owner
        → get_model one_provider "m" ≡ reply owner)
get_model_agrees_example = get_model_agrees one_provider request 1 5 effects

-- Another replica holds the lock, and its response is there at the first look.
abbrev waiting : Run ℕ
waiting = record run { rounds = λ i. record { clock = 2000; answer = entry [] } }

abbrev locked : State ℕ
locked = record state {
  redis = record { responses = []; locks = ("digest", ("theirs", 1000000)) ∷ [] };
}

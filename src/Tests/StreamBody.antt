-- ===== src/Tests/StreamBody.antt =====
-- routers/chat.py: the bodies of concrete streaming responses.
use myown_llm_gateway.Base.{ℕ, ◌+◌, String, none, some, List, [], ◌∷◌, ◌++◌, ◌≡◌, refl, arith, map}
use myown_llm_gateway.Base.Int.{pos}
use myown_llm_gateway.Base.Dict.{Dict}
use myown_llm_gateway.Base.Json.Reader.{loads}
use myown_llm_gateway.Base.Sort.{sort_by}
use myown_llm_gateway.Base.Unicode.{decode}
use myown_llm_gateway.Services.Router.{select_providers}
use myown_llm_gateway.Base.Text.{Text, codes}
use myown_llm_gateway.Core.Exceptions.{
  ProviderError, rate_limited, no_provider_available, generic, returned_http, provider_error, ok,
  raise,
}
use myown_llm_gateway.Models.Api.{ChatResponse, FinishReason, no_usage}
use myown_llm_gateway.Models.Chunk.{done_line}
use myown_llm_gateway.Models.Usage.{UsageRecord}
use myown_llm_gateway.Providers.Base.{BaseProvider, Stream, finished, failed, line}
use myown_llm_gateway.Services.Cache.{Codec, get}
use myown_llm_gateway.Services.Streaming.{stream_chat_completion}
use myown_llm_gateway.Services.Streaming.Chunks.{capture_usage, feed, to_response}
use myown_llm_gateway.Services.Streaming.Assembly.{assemble, one_choice}
use myown_llm_gateway.Services.Usage.{persist}
use myown_llm_gateway.Routers.Chat.Stream.{
  ErrorEvent, error_event, replay_or_relay, relayed_line, Served, advance, drain, unserved,
  stream_response, unix_time,
}
use myown_llm_gateway.Routers.Chat.Rows.{IsStreamed}
use myown_llm_gateway.Routers.Chat.Streamed.{stream_response-IsStreamed}
use myown_llm_gateway.Routers.Chat.Left.{stream_left}
use myown_llm_gateway.Routers.Chat.Alike.{last_of, AreAlike, replay_or_relay-lead}
use myown_llm_gateway.Routers.Chat.Completions.{respond}
use myown_llm_gateway.Routers.Http.{HttpException, refuse}
use myown_llm_gateway.Services.Gateway.{lead}
use myown_llm_gateway.Services.Fallback.Laws.{names}
use myown_llm_gateway.Routers.Chat.Replayed.{stream_response_repeated}
use myown_llm_gateway.Tests.Gateway.{run, state, digest}
use myown_llm_gateway.Tests.Samples.{request}

abbrev hi_chunk : Text
hi_chunk =
    codes
      "data: {\"id\": \"c1\", \"model\": \"m\", \"choices\": [{\"delta\": {\"content\": \"hi\"}}]}\n\n"

-- The world counts the calls.
abbrev streaming : Stream → BaseProvider ℕ
streaming stream = record {
  config = record {
    name = "local";
    base_url = "http://localhost";
    supported_models = [];
    priority = pos 0;
    timeout = 1000;
    model_pricing = [];
  };
  chat_completion = λ request calls.
      (raise (provider_error (generic (returned_http "local" 500) "local")), calls + 1);
  stream_chat_completion = λ request calls. (stream, calls + 1);
}

abbrev breaks : Dict (BaseProvider ℕ)
breaks =
    (
      "local",
      streaming
          (line hi_chunk (failed (provider_error (generic (returned_http "local" 500) "local")))),
    )
    ∷ []

abbrev ends : Dict (BaseProvider ℕ)
ends = ("local", streaming (line hi_chunk (line done_line finished))) ∷ []

abbrev built : ChatResponse
built = one_choice "c1" "m" "hi" FinishReason.stop no_usage 0

abbrev codec : Codec
codec = record { encode = λ v. []; decode = λ raw. some built }

stream_response-IsStreamed_example :
    let out = stream_response codec 300 run digest (some "r") request breaks 1 state in
    IsStreamed 1 "m" out.0 [] out.1.effects.pending
stream_response-IsStreamed_example =
    stream_response-IsStreamed codec 300 run digest (some "r") request breaks 1 state (λ i s. refl)

left_at_once :
    let out = stream_left codec 300 run 0 digest (some "r") request ends 1 state in
    (out.0 ≡ relayed_line hi_chunk ∷ []) × (out.1.effects.pending ≡ [])
unfolding stream_left drain advance stream_chat_completion capture_usage feed loads select_providers
    sort_by get
left_at_once = (refl, refl)

abbrev served : Served ℕ
served = (drain (stream_chat_completion request ends 0).0 unserved).2

drained :
    (drain (stream_chat_completion request ends 0).0 unserved)
    ≡ (hi_chunk ∷ done_line ∷ [], none, served)
unfolding drain advance stream_chat_completion capture_usage feed loads select_providers sort_by
drained = refl

stored : to_response (unix_time 1000) served.accumulator ≡ ok built
unfolding drain advance stream_chat_completion capture_usage feed loads to_response select_providers
    sort_by decode
stored = refl

stream_response_repeated_example :
    let first = stream_response codec 300 run digest none request ends 1 state in
    let second = stream_response codec 300 run digest none request ends 1 first.1 in
    (first.0 ≡ record { sent = map relayed_line (hi_chunk ∷ done_line ∷ []); ending = none })
    × ((replayed : List Text) × (second.0
          ≡ record { sent = map relayed_line replayed; ending = none })
        × (assemble replayed 9 ≡ assemble (hi_chunk ∷ done_line ∷ []) 9)
        × (second.1.world ≡ first.1.world)
        × ((u : UsageRecord) × (u.estimated_cost ≡ 0)
            × (u.provider ≡ "cache")
            × (second.1.effects.pending ≡ first.1.effects.pending ++ persist u ∷ [])))
stream_response_repeated_example =
    stream_response_repeated codec 300 run run digest none request ends 1 state
      (hi_chunk ∷ done_line ∷ []) served built 9 (λ i s. refl) (λ i s. refl) refl refl refl
      (omega arith) (unfold get in refl) drained
      (unfold drain advance stream_chat_completion capture_usage feed loads select_providers
          sort_by in
        refl)
      stored

abbrev broken : ProviderError
broken = rate_limited (returned_http "local" 429) "local" (some "7")

abbrev down : Dict (BaseProvider ℕ)
down =
    (
      "local",
      record (streaming (failed (provider_error broken))) {
        chat_completion = λ request calls. (raise (provider_error broken), calls + 1);
      },
    )
    ∷ []

replay_or_relay-lead_example :
    let candidates = select_providers down request.model in
    (exc : HttpException) × (event : ErrorEvent) × (error_type : String) × ((replay_or_relay codec
        300 run
        (some "r")
        "key"
        request
        down
        1
        none
        state).0
      ≡ record { sent = error_event event ∷ []; ending = none })
    × (respond request.model (lead codec 300 run "key" request 1 candidates none state).0
        ≡ (refuse exc, some error_type))
    × AreAlike
        (some "r")
        request.model
        (no_provider_available (names candidates) (last_of request (λ p. broken) none candidates))
        exc
        event
        error_type
unfolding select_providers sort_by
replay_or_relay-lead_example =
    replay_or_relay-lead codec 300 run run 1 (some "r") "key" request down none state state
      (λ p. broken) ((λ w. refl, λ w. refl), tt)

-- ===== src/Routers/Chat/Streamed.antt =====
-- src/llm_gateway/routers/chat.py: the rows that a streaming response leaves to be written.
use myown_llm_gateway.Base.{ℕ, String, Option, none, some, List, ◌≡◌, refl, ◌∙◌}
use myown_llm_gateway.Base.Dict.{Dict}
use myown_llm_gateway.Models.Api.{ChatRequest, ChatResponse}
use myown_llm_gateway.Services.Cache.{Codec}
use myown_llm_gateway.Services.SingleFlight.{State, Run}
use myown_llm_gateway.Providers.Base.{BaseProvider}
use myown_llm_gateway.Services.Streaming.{stream_chat_completion}
use myown_llm_gateway.Services.Gateway.Billing.{IsQuiet}
use myown_llm_gateway.Services.Usage.{Task}
use myown_llm_gateway.Services.Router.{select_providers}
use myown_llm_gateway.Services.Streaming.Source.{stream_chat_completion_lem}
use myown_llm_gateway.Routers.Chat.Stream.{stream_response, replay_or_relay}
use myown_llm_gateway.Routers.Chat.Rows.{IsStreamed, Opens-relay, replay-Streams, drain-Streams}

replay_or_relay-IsStreamed :
    {W : Type 0} (codec : Codec) (ttl : ℕ) (run : Run W) (key : ℕ) (before : List Task)
    (context : Option String) (cache_key : String) (request : ChatRequest)
    (registry : Dict (BaseProvider W)) (cached : Option ChatResponse) (s : State W)
    → IsQuiet run
    → s.effects.pending ≡ before
    → let out = replay_or_relay codec ttl run context cache_key request registry key cached s in
      IsStreamed key request.model out.0 before out.1.effects.pending
unfolding replay_or_relay
replay_or_relay-IsStreamed codec ttl run key before context cache_key request registry (some cached)
      s quiet start =
    replay-Streams codec ttl run key request.model before cached cached.choices _ _ _ s refl start
replay_or_relay-IsStreamed codec ttl run key before context cache_key request registry none s quiet
      start =
    let out = stream_chat_completion request registry s.world in
    drain-Streams codec ttl run key request.model before context cache_key out.0
      (run.others 1 (record s { world = out.1 }))
      (Opens-relay request (select_providers registry request.model) out
        (stream_chat_completion_lem request registry s.world))
      (quiet 1 (record s { world = out.1 }) ∙ start)

-- When the body of a streaming response has ended, of a request of the key for the model, one of
-- three things has happened, if the others change no rows at its awaits. It sent lines and left one
-- row of usage of the key, with the tokens that the reading of these lines captures; its end is
-- regular, or the `ValueError` of lines of which no response could be built for the cache. Or it
-- sent lines and then an error event, and left one row of a failure of the key and the model. Or
-- an exception ended it, and it left no row.
pub stream_response-IsStreamed :
    {W : Type 0} (codec : Codec) (ttl : ℕ) (run : Run W) (digest : ChatRequest × Option ℕ → String)
    (context : Option String) (request : ChatRequest) (registry : Dict (BaseProvider W)) (key : ℕ)
    (s : State W)
    → IsQuiet run
    → let out = stream_response codec ttl run digest context request registry key s in
      IsStreamed key request.model out.0 s.effects.pending out.1.effects.pending
unfolding stream_response
stream_response-IsStreamed codec ttl run digest context request registry key s quiet =
    replay_or_relay-IsStreamed codec ttl run key s.effects.pending context _ request registry _ _
      quiet (quiet 0 _)

-- ===== src/Providers/Anthropic/Events.antt =====
-- src/llm_gateway/providers/anthropic.py: the translation of a stream of events to chunks.
use myown_llm_gateway.Base.{
  ℕ, suc, String, Bool, true, false, Option, none, some, [], if◌then◌else◌, drop,
}
use myown_llm_gateway.Base.Int.{ℤ, pos, ◌+ℤ◌}
use myown_llm_gateway.Base.Text.{Text, codes, strip, starts_with, text_eq}
use myown_llm_gateway.Base.Json.{
  Json, null, bool, int, float, str, arr, obj, Fields, end, find_field, or_else, dict_of,
}
use myown_llm_gateway.Base.Json.Reader.{loads}
use myown_llm_gateway.Core.Exceptions.{Result, ok, raise, ◌>>=◌}
use myown_llm_gateway.Core.Values.{get_of, get_or_of}
use myown_llm_gateway.Models.Api.{FinishReason, ChatRequest}
use myown_llm_gateway.Models.Chunk.{delta_of, usage_dict, chunk_fields, sse_line, done_line}
use myown_llm_gateway.Models.Provider.{ProviderConfig}
use myown_llm_gateway.Providers.Base.{Stream, finished, failed, line, BaseProvider, iter_sse_lines}
use myown_llm_gateway.Providers.Client.{Client}
use myown_llm_gateway.Providers.Anthropic.{Coercions, stop_reason_of, int_of, call_of, complete}

-- The variables of the loop. An id or a model that the upstream sends is of any class.
pub record Translation : Type 0 where
  pub chunk_id : Json
  pub model : Json
  pub input_tokens : ℤ
  pub done_sent : Bool

-- `_chunk`, at the time `now`; a content of `None` is left out
unfoldable pub chunk :
    Json → Json → ℕ → Option String → Option Json → Option FinishReason → Option Fields → Text
chunk chunk_id model now role content finish_reason usage =
    sse_line (obj (chunk_fields chunk_id model now (delta_of role content) finish_reason usage))

abbrev unless_null : Json → Option Json
unless_null null = none
unless_null (bool b) = some (bool b)
unless_null (int n) = some (int n)
unless_null (float s) = some (float s)
unless_null (str s) = some (str s)
unless_null (arr vs) = some (arr vs)
unless_null (obj fs) = some (obj fs)

-- `v == "..."`
abbrev pub is_text : String → Json → Bool
is_text t (str s) = text_eq s (codes t)
is_text t null = false
is_text t (bool _) = false
is_text t (int _) = false
is_text t (float _) = false
is_text t (arr _) = false
is_text t (obj _) = false

-- The event of a line, if there is one.
unfoldable pub event_of : Text → Option Json
unfolding starts_with strip loads
event_of l = if starts_with l (codes "data: ") then loads (strip (drop 6 l)) else none

module _ (k : Coercions) where
  -- `int(usage.get(name, default))`, if the usage is a dict
  abbrev pub tokens : String → ℤ → Option Fields → Result ℤ
  tokens name default none = ok default
  tokens name default (some usage) = elim (find_field (codes name) usage) [
    | none ↦ ok default
    | some v ↦ int_of k v
  ]

  -- The branch of `message_start`.
  unfoldable pub on_start : ℕ → Json → Translation → Result (Option Text × Translation)
  unfolding int_of chunk
  on_start now event s = do
    message ← get_or_of "message" (obj end) event
    chunk_id ← get_or_of "id" s.chunk_id message
    model ← get_or_of "model" s.model message
    nested ← get_of "usage" message
    own ← get_of "usage" event
    input_tokens ← tokens "input_tokens" s.input_tokens (dict_of (or_else nested own))
    ok (
      some (chunk chunk_id model now (some "assistant") none none none),
      record s { chunk_id = chunk_id; model = model; input_tokens = input_tokens },
    )

  -- The branch of `content_block_delta`.
  unfoldable pub on_delta : ℕ → Json → Translation → Result (Option Text × Translation)
  unfolding chunk text_eq
  on_delta now event s = do
    delta ← get_or_of "delta" (obj end) event
    kind ← get_of "type" delta
    text ← get_or_of "text" (str []) delta
    ok (
      if is_text "text_delta" kind
          then some (chunk s.chunk_id s.model now none (unless_null text) none none)
          else none,
      s,
    )

  -- The branch of `message_delta`.
  unfoldable pub on_stop_reason : ℕ → Json → Translation → Result (Option Text × Translation)
  unfolding chunk stop_reason_of int_of
  on_stop_reason now event s = do
    delta ← get_or_of "delta" (obj end) event
    reason ← get_or_of "stop_reason" (str []) delta
    stop_reason ← stop_reason_of reason
    usage ← get_of "usage" event
    output_tokens ← tokens "output_tokens" (pos 0) (dict_of usage)
    ok (
      some (
          chunk s.chunk_id s.model now none none (some stop_reason)
            (some (usage_dict s.input_tokens output_tokens (s.input_tokens +ℤ output_tokens)))),
      s,
    )

  -- The body of the loop on an event: the line that it yields, if there is one.
  unfoldable pub on_event : ℕ → Json → Translation → Result (Option Text × Translation)
  unfolding on_start on_delta on_stop_reason text_eq
  on_event now event s = do
    event_type ← get_of "type" event
    if is_text "message_start" event_type
        then on_start now event s
        else if is_text "content_block_delta" event_type
        then on_delta now event s
        else if is_text "message_delta" event_type
        then on_stop_reason now event s
        else if is_text "message_stop" event_type
        then ok (some done_line, record s { done_sent = true })
        else ok (none, s)

  abbrev pub on_line : ℕ → Option Json → Translation → Result (Option Text × Translation)
  on_line now none s = ok (none, s)
  on_line now (some event) s = on_event now event s

  -- The loop and its end, over the times of its rounds.
  unfoldable pub translate : (ℕ → ℕ) → ℕ → Translation → Stream → Stream
  unfolding on_event event_of
  translate clock n s finished = if s.done_sent then finished else line done_line finished
  translate clock n s (failed e) = failed e
  translate clock n s (line l rest) =
      let resume = λ (s' : Translation). translate clock (suc n) s' rest in
      elim (on_line (clock n) (event_of l) s) [
        | raise e ↦ failed e
        | ok (none, s') ↦ resume s'
        | ok (some out, s') ↦ line out (resume s')
      ]

  -- The variables before the loop.
  abbrev pub start : ChatRequest → Translation
  start request = record {
    chunk_id = str [];
    model = str (codes request.model);
    input_tokens = pos 0;
    done_sent = false;
  }

  module _ {W : Type 0} (client : Client W) (context : Option String)
      (config : ProviderConfig) where
    -- `stream_chat_completion`
    unfoldable pub complete_stream : (ℕ → ℕ) → String → ChatRequest → W → Stream × W
    unfolding translate call_of
    complete_stream clock api_key request w =
        let (incoming, w') = client.stream (call_of context config api_key request true) w in
        (translate clock 0 (start request) (iter_sse_lines config config.timeout incoming), w')

    -- `AnthropicProvider(config, client, api_key=api_key)`
    unfoldable anthropic_provider : ℕ → (ℕ → ℕ) → String → BaseProvider W
    anthropic_provider now clock api_key = record {
      config = config;
      chat_completion = complete k client context config now api_key;
      stream_chat_completion = complete_stream clock api_key;
    }

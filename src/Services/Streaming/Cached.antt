-- ===== src/Services/Streaming/Cached.antt =====
-- src/llm_gateway/services/streaming.py: the chunks that replay a cached response.
use myown_llm_gateway.Base.{ℕ, String, Option, none, some, List, [], ◌∷◌}
use myown_llm_gateway.Base.Int.{pos}
use myown_llm_gateway.Base.Text.{Text, codes}
use myown_llm_gateway.Base.Json.{Json, str, obj, Fields}
use myown_llm_gateway.Core.Exceptions.{Result, ok, raise, index_error}
use myown_llm_gateway.Models.Api.{FinishReason, ChatResponse, ChatResponseChoice}
use myown_llm_gateway.Models.Chunk.{delta_of, usage_dict, chunk_fields, sse_line, done_line}

-- `_sse_chunk`, at the time `now`
unfoldable sse_chunk :
    String → String → ℕ → Option String → Option Json → Option FinishReason → Option Fields → Text
unfolding sse_line
sse_chunk chunk_id model now role content finish_reason usage = sse_line (
    obj (
      chunk_fields (str (codes chunk_id)) (str (codes model)) now (delta_of role content)
        finish_reason usage))

abbrev replay_choice : ChatResponse → ℕ → ℕ → ℕ → List ChatResponseChoice → Result (List Text)
replay_choice response t t' t'' [] = raise index_error
replay_choice response t t' t'' (choice ∷ _) =
    let usage =
      usage_dict (pos response.usage.prompt_tokens) (pos response.usage.completion_tokens)
        (pos response.usage.total_tokens) in
    let chunk = sse_chunk response.id response.model in
    ok (
      chunk t (some "assistant") none none none
      ∷ chunk t' none (some (str (codes choice.message.content))) none none
      ∷ chunk t'' none none (some choice.finish_reason) (some usage)
      ∷ done_line
      ∷ [])

-- `synthesize_cached_stream`, over the times at which the three chunks are built
unfoldable pub synthesize_cached_stream : ChatResponse → ℕ → ℕ → ℕ → Result (List Text)
unfolding sse_chunk
synthesize_cached_stream response t t' t'' = replay_choice response t t' t'' response.choices

-- ===== src/Models/Chunk.antt =====
-- src/llm_gateway/services/streaming.py and src/llm_gateway/providers/anthropic.py: the chunks of a
-- stream in the format of OpenAI, which both write by the same statements.
use mathlib.Core.List.{◌++◌ as append}
use myown_llm_gateway.Base.{ℕ, String, Option, none, some, [], ◌∷◌}
use myown_llm_gateway.Base.Int.{ℤ, pos}
use myown_llm_gateway.Base.Text.{Text, codes}
use myown_llm_gateway.Base.Json.{Json, int, str, arr, obj, nil, cons, Fields, end, field}
use myown_llm_gateway.Base.Json.Writer.{dumps}
use myown_llm_gateway.Models.Api.{FinishReason}

abbrev pub reason_text : FinishReason → String
reason_text FinishReason.stop = "stop"
reason_text FinishReason.length = "length"
reason_text FinishReason.content_filter = "content_filter"

abbrev content_field : Option Json → Fields
content_field none = end
content_field (some content) = field (codes "content") content end

-- The delta of a chunk, over what `role` and `content` are given.
abbrev pub delta_of : Option String → Option Json → Fields
delta_of none content = content_field content
delta_of (some role) content = field (codes "role") (str (codes role)) (content_field content)

abbrev pub usage_dict : ℤ → ℤ → ℤ → Fields
usage_dict prompt completion total = field (codes "prompt_tokens") (int prompt) (
    field (codes "completion_tokens") (int completion)
      (field (codes "total_tokens") (int total) end))

abbrev usage_field : Option Fields → Fields
usage_field none = end
usage_field (some usage) = field (codes "usage") (obj usage) end

abbrev pub reason_json : Option FinishReason → Json
reason_json none = Json.null
reason_json (some reason) = str (codes (reason_text reason))

-- The payload of a chunk; `chunk_id` and `model` are of any class in the adapter of Anthropic.
abbrev pub chunk_fields : Json → Json → ℕ → Fields → Option FinishReason → Option Fields → Fields
chunk_fields chunk_id model now delta finish_reason usage =
    let choice = field (codes "index") (int (pos 0)) (
      field (codes "delta") (obj delta)
        (field (codes "finish_reason") (reason_json finish_reason) end)) in
    field (codes "id") chunk_id (
      field (codes "object") (str (codes "chat.completion.chunk")) (
        field (codes "created") (int (pos now)) (
          field (codes "model") model
            (field (codes "choices") (arr (cons (obj choice) nil)) (usage_field usage)))))

-- `f"data: {json.dumps(payload)}\n\n"`
unfoldable pub sse_line : Json → Text
unfolding dumps
sse_line payload = append (codes "data: ") (append (dumps payload) (10 ∷ 10 ∷ []))

abbrev pub done_line : Text
done_line = append (codes "data: [DONE]") (10 ∷ 10 ∷ [])

-- ===== src/Providers/Anthropic/Wire.antt =====
-- src/llm_gateway/providers/anthropic.py: an answer of the upstream as it sends it, as a body and
-- as events, and what the adapter makes of each.
use mathlib.Core.List.{◌++◌ as append}
use myown_llm_gateway.Base.{
  ℕ, ◌+◌, String, true, false, none, some, ◌≡◌, refl, ◌≤◌, arith, length, if◌then◌else◌,
}
use myown_llm_gateway.Base.Int.{pos, ◌+ℤ◌}
use myown_llm_gateway.Base.Text.{Text, codes, text_eq}
use myown_llm_gateway.Base.Unicode.{is_unicode-codes, decode-codes}
use myown_llm_gateway.Base.Json.{Json, int, str, arr, obj, nil, cons, Fields, end, field}
use myown_llm_gateway.Base.Json.Writer.{dumps}
use myown_llm_gateway.Base.Json.RoundTrip.{printable, loads-dumps}
use myown_llm_gateway.Core.Exceptions.{ok}
use myown_llm_gateway.Models.Api.{FinishReason, ChatRequest, Usage}
use myown_llm_gateway.Models.Chunk.{done_line, delta_of}
use myown_llm_gateway.Providers.Anthropic.{Coercions, build_response}
use myown_llm_gateway.Providers.Anthropic.Events.{Translation, event_of, on_line, on_event, start}
use myown_llm_gateway.Services.Streaming.Lines.{strip-dumps}
use myown_llm_gateway.Services.Streaming.Assembly.{line_of, usage_of, one_choice, content_of-codes}

-- `data: ` and an event, as the upstream writes it
abbrev pub data_line : Fields → Text
data_line event = append (codes "data: ") (dumps (obj event))

abbrev text_field : String → String → Fields → Fields
text_field key value rest = field (codes key) (str (codes value)) rest

abbrev number_field : String → ℕ → Fields
number_field key value = field (codes key) (int (pos value)) end

event_of-data_line :
    (event : Fields) → printable (obj event) ≡ true → event_of (data_line event) ≡ some (obj event)
unfolding event_of
event_of-data_line event p = rw (strip-dumps event, loads-dumps (obj event) p)

+ℤ-pos : (m n : ℕ) → pos m +ℤ pos n ≡ pos (m + n)
unfolding ◌+ℤ◌
+ℤ-pos m n = ground arith

-- What the upstream says of its answer, but for the text.
pub record Answer : Type 0 where
  pub id : String
  pub model : String
  pub stop_reason : String
  pub input_tokens : ℕ
  pub output_tokens : ℕ

abbrev pub message_start : Answer → Fields
message_start a = text_field "type" "message_start" (
    field (codes "message")
      (obj (
        text_field "id" a.id (
          text_field "model" a.model
            (field (codes "usage") (obj (number_field "input_tokens" a.input_tokens)) end))))
      end)

abbrev pub text_delta : String → Fields
text_delta text =
    text_field "type" "content_block_delta" (
      field (codes "delta") (obj (text_field "type" "text_delta" (text_field "text" text end))) end)

abbrev pub message_delta : Answer → Fields
message_delta a = text_field "type" "message_delta" (
    field (codes "delta") (obj (text_field "stop_reason" a.stop_reason end))
      (field (codes "usage") (obj (number_field "output_tokens" a.output_tokens)) end))

abbrev pub message_stop : Fields
message_stop = text_field "type" "message_stop" end

-- The same answer as a body, with its text in one block.
abbrev pub body_of : Answer → String → Json
body_of a content =
    let counts =
      field (codes "input_tokens") (int (pos a.input_tokens))
        (number_field "output_tokens" a.output_tokens) in
    let block = text_field "type" "text" (text_field "text" content end) in
    obj (
      text_field "id" a.id (
        text_field "model" a.model (
          field (codes "content") (arr (cons (obj block) nil))
            (text_field "stop_reason" a.stop_reason (field (codes "usage") (obj counts) end)))))

abbrev pub usage : Answer → Usage
usage a = record {
  prompt_tokens = a.input_tokens;
  completion_tokens = a.output_tokens;
  total_tokens = a.input_tokens + a.output_tokens;
}

abbrev pub finish_reason : Answer → FinishReason
finish_reason a =
    if text_eq (codes a.stop_reason) (codes "max_tokens")
    then FinishReason.length
    else FinishReason.stop

-- The variables of the loop once the message has started.
abbrev pub started : Answer → Translation
started a = record {
  chunk_id = str (codes a.id);
  model = str (codes a.model);
  input_tokens = pos a.input_tokens;
  done_sent = false;
}

module _ (k : Coercions) (a : Answer) where
  pub step-start :
      (now : ℕ) (request : ChatRequest)
      → on_line k now (event_of (data_line (message_start a))) (start k request)
        ≡ ok (
          some (line_of a.id a.model now (delta_of (some "assistant") none) none none),
          started a,
        )
  unfolding on_event
  step-start now request = rw (
      event_of-data_line (message_start a)
        (unfold printable in (rw (is_unicode-codes a.id, is_unicode-codes a.model))))

  pub step-text :
      (now : ℕ) (text : String)
      → on_line k now (event_of (data_line (text_delta text))) (started a)
        ≡ ok (
          some (line_of a.id a.model now (delta_of none (some (str (codes text)))) none none),
          started a,
        )
  unfolding on_event
  step-text now text =
      rw (event_of-data_line (text_delta text) (unfold printable in (rw (is_unicode-codes text))))

  pub step-stop :
      (now : ℕ)
      → on_line k now (event_of (data_line (message_delta a))) (started a)
        ≡ ok (
          some (line_of a.id a.model now end (some (finish_reason a)) (some (usage_of (usage a)))),
          started a,
        )
  unfolding on_event
  step-stop now = rw (
    event_of-data_line (message_delta a)
        (unfold printable in (rw (is_unicode-codes a.stop_reason))),
    +ℤ-pos a.input_tokens a.output_tokens,
  )

  pub step-end :
      (now : ℕ)
      → on_line k now (event_of (data_line message_stop)) (started a)
        ≡ ok (some done_line, record (started a) { done_sent = true })
  unfolding on_event
  step-end now = rw (event_of-data_line message_stop (unfold printable in refl))

  pub body-one_choice :
      (now : ℕ) (content : String)
      → length (codes content) ≤ 50000
      → build_response k now (body_of a content)
        ≡ ok (one_choice a.id a.model content (finish_reason a) (usage a) now)
  unfolding build_response
  body-one_choice now content h = rw (
    content_of-codes content h,
    +ℤ-pos a.input_tokens a.output_tokens,
    decode-codes a.id,
    decode-codes a.model,
  )

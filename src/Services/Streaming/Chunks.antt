-- ===== src/Services/Streaming/Chunks.antt =====
-- src/llm_gateway/services/streaming.py: the reading of the relayed chunks. The fields of the
-- accumulator hold what the chunks gave, of any class.
use mathlib.Core.List.{◌++◌ as append}
use myown_llm_gateway.Base.{
  ℕ, String, Bool, true, false, Option, none, some, [], ◌∷◌, if◌then◌else◌, ◌==◌, ltb, length, drop,
}
use myown_llm_gateway.Base.Int.{ℤ, pos, ◌+ℤ◌}
use myown_llm_gateway.Base.Text.{Text, codes, strip, starts_with, text_eq}
use myown_llm_gateway.Base.Unicode.{decode}
use myown_llm_gateway.Base.Digits.{is_digits, int_of_text}
use myown_llm_gateway.Base.Json.{
  Json, bool, int, str, arr, obj, nil, Fields, end, get_field, truthy, or_else, dict_of,
}
use myown_llm_gateway.Base.Json.Reader.{loads}
use myown_llm_gateway.Core.Exceptions.{Result, ok, raise, ◌>>=◌, value_error, type_error}
use myown_llm_gateway.Core.Values.{get_of, first_of, bool_int, or_raise, string_of}
use myown_llm_gateway.Models.Api.{Role, FinishReason, ChatResponse, Usage, no_usage, make_usage}

-- `value.lstrip("-")`
unfoldable lstrip_minus : Text → Text
lstrip_minus [] = []
lstrip_minus (c ∷ s) = let rest = lstrip_minus s in if c == b'-' then rest else c ∷ s

-- `_to_int`; a bool is an int
unfoldable pub to_int : Json → ℤ → Result ℤ
unfolding is_digits lstrip_minus int_of_text
to_int (int n) default = ok n
to_int (bool b) default = ok (bool_int b)
to_int (str s) default = if is_digits (lstrip_minus s) then or_raise (int_of_text s) else ok default
to_int _ default = ok default

abbrev parsed : Text → Option Json
parsed [] = none
parsed (c ∷ s) = if text_eq (c ∷ s) (codes "[DONE]") then none else loads (c ∷ s)

-- The first statements of `capture_usage` and of `feed`: the chunk of the line, if there is one.
unfoldable pub chunk_of : Text → Option Json
unfolding strip starts_with text_eq
chunk_of line =
    let text = strip line in
    if starts_with text (codes "data: ") then parsed (strip (drop 6 text)) else none

abbrev captured : Option Fields → Usage → Result Usage
captured none current = ok current
captured (some usage) current = do
  prompt ← to_int (get_field "prompt_tokens" usage) (pos current.prompt_tokens)
  completion ← to_int (get_field "completion_tokens" usage) (pos current.completion_tokens)
  total ← to_int (get_field "total_tokens" usage) (prompt +ℤ completion)
  ok (make_usage prompt completion total)

abbrev capture_from : Option Json → Usage → Result Usage
capture_from none current = ok current
capture_from (some chunk) current = do
  usage ← get_of "usage" chunk
  captured (dict_of usage) current

-- `capture_usage`
unfoldable pub capture_usage : Text → Usage → Result Usage
unfolding chunk_of to_int
capture_usage line current = capture_from (chunk_of line) current

pub record ChunkAccumulator : Type 0 where
  pub id : Json
  pub model : Json
  pub content : Text
  pub finish_reason : Json
  pub usage : Usage
  pub saw_any_chunk : Bool

-- `ChunkAccumulator()`
abbrev pub no_chunks : ChunkAccumulator
no_chunks = record {
  id = str [];
  model = str [];
  content = [];
  finish_reason = str (codes "stop");
  usage = no_usage;
  saw_any_chunk = false;
}

-- `if content: self.content += content`
unfoldable add_content : Json → ChunkAccumulator → Result ChunkAccumulator
add_content (str s) a = ok (record a { content = append a.content s })
add_content content a = if truthy content then raise type_error else ok a

-- `if choices:` and its block
unfoldable feed_choices : Json → ChunkAccumulator → Result ChunkAccumulator
unfolding add_content
feed_choices choices a =
    let block = do
      choice ← first_of choices
      delta ← get_of "delta" choice
      content ← get_of "content" (or_else delta (obj end))
      a' ← add_content content a
      finish_reason ← get_of "finish_reason" choice
      ok (record a' { finish_reason = or_else finish_reason a'.finish_reason })
    in if truthy choices then block else ok a

unfoldable feed_usage : Option Fields → ChunkAccumulator → Result ChunkAccumulator
unfolding to_int
feed_usage none a = ok a
feed_usage (some usage) a = do
  prompt ← to_int (get_field "prompt_tokens" usage) (pos a.usage.prompt_tokens)
  completion ← to_int (get_field "completion_tokens" usage) (pos a.usage.completion_tokens)
  total ← to_int (get_field "total_tokens" usage) (pos a.usage.total_tokens)
  ok (record a { usage = make_usage prompt completion total })

abbrev feed_chunk : Option Json → ChunkAccumulator → Result ChunkAccumulator
feed_chunk none a = ok a
feed_chunk (some chunk) a = do
  id ← get_of "id" chunk
  model ← get_of "model" chunk
  choices ← get_of "choices" chunk
  a' ←
      feed_choices (or_else choices (arr nil))
        (record a { id = or_else id a.id; model = or_else model a.model; saw_any_chunk = true })
  usage ← get_of "usage" chunk
  feed_usage (dict_of usage) a'

-- `feed`
unfoldable pub feed : Text → ChunkAccumulator → Result ChunkAccumulator
unfolding chunk_of feed_choices feed_usage
feed line a = feed_chunk (chunk_of line) a

-- pydantic's `FinishReason`
unfoldable pub reason_of : Json → Result FinishReason
unfolding text_eq
reason_of (str s) =
    if text_eq s (codes "stop")
    then ok FinishReason.stop
    else if text_eq s (codes "length")
    then ok FinishReason.length
    else if text_eq s (codes "content_filter")
    then ok FinishReason.content_filter
    else raise value_error
reason_of _ = raise value_error

-- The `content` of a message: at most 50,000 characters.
unfoldable pub content_of : Text → Result String
content_of s = if ltb 50000 (length s) then raise value_error else or_raise (decode s)

-- `to_response`, at the time `now`
unfoldable pub to_response : ℕ → ChunkAccumulator → Result ChatResponse
unfolding reason_of content_of
to_response now a = do
  content ← content_of a.content
  finish_reason ← reason_of a.finish_reason
  id ← string_of (or_else a.id (str (codes "chatcmpl-cached")))
  model ← string_of a.model
  ok (record {
    id = id;
    created = now;
    model = model;
    choices =
        record {
          index = 0;
          message = record { role = Role.assistant; content = content };
          finish_reason = finish_reason;
        }
        ∷ [];
    usage = a.usage;
  })

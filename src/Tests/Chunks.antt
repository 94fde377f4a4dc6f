-- ===== src/Tests/Chunks.antt =====
-- services/streaming.py: chunks of concrete streams.
use myown_llm_gateway.Base.{some, List, [], ◌∷◌, ◌≡◌, refl, arith}
use myown_llm_gateway.Base.Int.{pos, negsuc, ◌+ℤ◌}
use myown_llm_gateway.Base.Text.{Text, codes}
use myown_llm_gateway.Base.Json.{str, obj, int, field, end}
use myown_llm_gateway.Base.Json.Reader.{loads}
use myown_llm_gateway.Base.Json.RoundTrip.{printable}
use myown_llm_gateway.Core.Exceptions.{ok, raise, value_error}
use myown_llm_gateway.Models.Api.{
  ChatResponse, ChatResponseChoice, Role, FinishReason, no_usage, never_negative,
}
use myown_llm_gateway.Models.Chunk.{sse_line}
use myown_llm_gateway.Services.Streaming.Chunks.{to_int, chunk_of, capture_usage}
use myown_llm_gateway.Services.Streaming.Cached.{synthesize_cached_stream}
use myown_llm_gateway.Services.Streaming.Assembly.{assemble, capture_all, one_choice, or_cached_id}
use myown_llm_gateway.Services.Streaming.Lines.{chunk_of-sse_line}
use myown_llm_gateway.Services.Streaming.Replay.{synthesize_cached_stream-assemble}

digits : to_int (str (codes "-12")) (pos 3) ≡ ok (negsuc 11)
unfolding to_int
digits = refl

two_minus : to_int (str (codes "--5")) (pos 3) ≡ raise value_error
unfolding to_int
two_minus = refl

superscript : to_int (str (codes "²")) (pos 3) ≡ raise value_error
unfolding to_int
superscript = refl

words : to_int (str (codes "many")) (pos 3) ≡ ok (pos 3)
unfolding to_int
words = refl

clamped :
    capture_usage
      (codes "data: {\"usage\": {\"prompt_tokens\": -4, \"completion_tokens\": 7}}\n\n")
      no_usage
    ≡ ok (record { prompt_tokens = 0; completion_tokens = 7; total_tokens = 3 })
unfolding capture_usage loads never_negative ◌+ℤ◌
clamped = refl

comment : capture_usage (codes ": ping") no_usage ≡ ok no_usage
unfolding capture_usage
comment = refl

abbrev choice : ChatResponseChoice
choice = record {
  index = 0;
  message = record { role = Role.assistant; content = "é \"1\"\n" };
  finish_reason = FinishReason.length;
}

abbrev cached : ChatResponse
cached = record {
  id = "";
  created = 7;
  model = "m";
  choices = choice ∷ [];
  usage = record { prompt_tokens = 3; completion_tokens = 4; total_tokens = 7 };
}

synthesize_cached_stream-assemble_example :
    (lines : List Text) × (synthesize_cached_stream cached 10 11 12 ≡ ok lines)
    × (assemble lines 20
        ≡ ok (one_choice (or_cached_id "") "m" "é \"1\"\n" FinishReason.length cached.usage 20))
    × (capture_all lines no_usage ≡ ok cached.usage)
synthesize_cached_stream-assemble_example =
    synthesize_cached_stream-assemble cached choice [] 10 11 12 20 no_usage refl (omega arith)

chunk_of-sse_line_example :
    chunk_of (sse_line (obj (field (codes "n") (int (negsuc 4)) end)))
    ≡ some (obj (field (codes "n") (int (negsuc 4)) end))
chunk_of-sse_line_example =
    chunk_of-sse_line (field (codes "n") (int (negsuc 4)) end) (unfold printable in refl)

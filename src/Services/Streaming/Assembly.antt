-- ===== src/Services/Streaming/Assembly.antt =====
-- src/llm_gateway/services/streaming.py: the response that a reader assembles from the lines of a
-- stream, chunk by chunk.
use myown_llm_gateway.Base.{
  ℕ, String, Bool, true, false, Option, none, some, List, [], ◌∷◌, ◌++◌, ◌≡◌, refl, ◌≤◌, arith,
  length, ltb,
}
use myown_llm_gateway.Base.Int.{pos}
use myown_llm_gateway.Base.Text.{Text, codes}
use myown_llm_gateway.Base.Unicode.{is_unicode, is_unicode-codes, decode, decode-codes}
use myown_llm_gateway.Base.Json.{Json, str, obj, Fields, end, or_else}
use myown_llm_gateway.Base.Json.RoundTrip.{printable}
use myown_llm_gateway.Core.Values.{string_of}
use myown_llm_gateway.Core.Exceptions.{Result, ok, raise, ◌>>=◌}
use myown_llm_gateway.Models.Api.{Role, FinishReason, ChatResponse, Usage, no_usage, never_negative}
use myown_llm_gateway.Models.Chunk.{
  delta_of, usage_dict, sse_line, done_line, chunk_fields, reason_json, reason_text,
}
use myown_llm_gateway.Providers.Base.{Stream, finished, failed, line}
use myown_llm_gateway.Services.Streaming.Chunks.{
  chunk_of, capture_usage, ChunkAccumulator, no_chunks, feed, reason_of, content_of, to_response,
}
use myown_llm_gateway.Services.Streaming.Lines.{chunk_of-sse_line}

-- `for line in lines: accumulator.feed(line)`
unfoldable pub feed_all : List Text → ChunkAccumulator → Result ChunkAccumulator
feed_all [] a = ok a
feed_all (l ∷ ls) a = feed l a >>= feed_all ls

unfoldable pub capture_all : List Text → Usage → Result Usage
capture_all [] u = ok u
capture_all (l ∷ ls) u = capture_usage l u >>= capture_all ls

-- The response that a client assembles from the lines of a stream.
unfoldable pub assemble : List Text → ℕ → Result ChatResponse
unfolding feed_all
assemble lines now = feed_all lines no_chunks >>= to_response now

-- A reader of a stream: its accumulator and the usage that it captured, once the stream has ended.
unfoldable pub listen : Stream → ChunkAccumulator × Usage → Result (ChunkAccumulator × Usage)
listen finished s = ok s
listen (failed e) s = raise e
listen (line l rest) (a, u) = capture_usage l u >>= λ u'. feed l a >>= λ a'. listen rest (a', u')

abbrev printable_usage : Option Fields → Bool
printable_usage none = true
printable_usage (some usage) = printable (obj usage)

reason-printable : (reason : Option FinishReason) → printable (reason_json reason) ≡ true
unfolding printable
reason-printable none = refl
reason-printable (some FinishReason.stop) = refl
reason-printable (some FinishReason.length) = refl
reason-printable (some FinishReason.content_filter) = refl

chunk_fields-printable :
    (id model : Json) (now : ℕ) (delta : Fields) (reason : Option FinishReason)
    (usage : Option Fields)
    → printable id ≡ true
    → printable model ≡ true
    → printable (obj delta) ≡ true
    → printable_usage usage ≡ true
    → printable (obj (chunk_fields id model now delta reason usage)) ≡ true
unfolding printable
chunk_fields-printable id model now delta reason none p q d u =
    rw (p, q, d, reason-printable reason)
chunk_fields-printable id model now delta reason (some usage) p q d u =
    rw (p, q, d, reason-printable reason, u)

text-printable : (s : String) → printable (str (codes s)) ≡ true
unfolding printable
text-printable s = is_unicode-codes s

abbrev pub usage_of : Usage → Fields
usage_of u = usage_dict (pos u.prompt_tokens) (pos u.completion_tokens) (pos u.total_tokens)

usage-printable : (u : Usage) → printable (obj (usage_of u)) ≡ true
unfolding printable
usage-printable u = refl

or_else-nil : (s : Text) → or_else (str s) (str []) ≡ str s
or_else-nil [] = refl
or_else-nil (c ∷ s) = refl

or_else_self : (v : Json) → or_else v v ≡ v
or_else_self v = ground arith

or_else-reason :
    (reason : FinishReason) (v : Json)
    → or_else (str (codes (reason_text reason))) v ≡ str (codes (reason_text reason))
or_else-reason FinishReason.stop v = refl
or_else-reason FinishReason.length v = refl
or_else-reason FinishReason.content_filter v = refl

module _ (id model : String) where
  -- A line of the response of this id and model.
  abbrev pub line_of : ℕ → Fields → Option FinishReason → Option Fields → Text
  line_of now delta reason usage =
      sse_line (obj (chunk_fields (str (codes id)) (str (codes model)) now delta reason usage))

  chunk_of-line_of :
      (now : ℕ) (delta : Fields) (reason : Option FinishReason) (usage : Option Fields)
      → printable (obj delta) ≡ true
      → printable_usage usage ≡ true
      → chunk_of (line_of now delta reason usage)
        ≡ some (obj (chunk_fields (str (codes id)) (str (codes model)) now delta reason usage))
  chunk_of-line_of now delta reason usage d u = chunk_of-sse_line _ (
      chunk_fields-printable _ _ now delta reason usage (text-printable id) (text-printable model) d
        u)

  -- The accumulator once the first chunk has named the response.
  abbrev pub acc : Text → Json → Usage → ChunkAccumulator
  acc content reason usage = record {
    id = str (codes id);
    model = str (codes model);
    content = content;
    finish_reason = reason;
    usage = usage;
    saw_any_chunk = true;
  }

  pub feed-role :
      (t : ℕ)
      → feed (line_of t (delta_of (some "assistant") none) none none) no_chunks
        ≡ ok (acc [] (str (codes "stop")) no_usage)
  unfolding feed
  feed-role t = rw (
    chunk_of-line_of t (delta_of (some "assistant") none) none none (unfold printable in refl) refl,
    or_else-nil (codes id),
    or_else-nil (codes model),
  )

  pub feed-content :
      (t : ℕ) (s content : Text) (reason : Json) (u : Usage)
      → is_unicode s ≡ true
      → feed (line_of t (delta_of none (some (str s))) none none) (acc content reason u)
        ≡ ok (acc (content ++ s) reason u)
  unfolding feed
  feed-content t s content reason u p = rw (
    chunk_of-line_of t (delta_of none (some (str s))) none none (unfold printable in (rw p)) refl,
    or_else_self (str (codes id)),
    or_else_self (str (codes model)),
  )

  pub feed-last :
      (t : ℕ) (content : Text) (reason : FinishReason) (before : Json) (u v : Usage)
      → feed (line_of t end (some reason) (some (usage_of u))) (acc content before v)
        ≡ ok (acc content (str (codes (reason_text reason))) u)
  unfolding feed never_negative
  feed-last t content reason before u v = rw (
    chunk_of-line_of t end (some reason) (some (usage_of u)) (unfold printable in refl)
        (usage-printable u),
    or_else_self (str (codes id)),
    or_else_self (str (codes model)),
    or_else-reason reason before,
  )

  pub capture-last :
      (t : ℕ) (reason : FinishReason) (u v : Usage)
      → capture_usage (line_of t end (some reason) (some (usage_of u))) v ≡ ok u
  unfolding capture_usage never_negative
  capture-last t reason u v = rw (
      chunk_of-line_of t end (some reason) (some (usage_of u)) (unfold printable in refl)
        (usage-printable u))

  pub capture-other :
      (t : ℕ) (delta : Fields) (u : Usage)
      → printable (obj delta) ≡ true
      → capture_usage (line_of t delta none none) u ≡ ok u
  unfolding capture_usage
  capture-other t delta u d = rw (chunk_of-line_of t delta none none d refl)

pub feed-done : (a : ChunkAccumulator) → feed done_line a ≡ ok a
unfolding feed
feed-done a = refl

pub capture-done : (u : Usage) → capture_usage done_line u ≡ ok u
unfolding capture_usage
capture-done u = refl

reason_of-reason_text :
    (reason : FinishReason) → reason_of (str (codes (reason_text reason))) ≡ ok reason
unfolding reason_of
reason_of-reason_text FinishReason.stop = refl
reason_of-reason_text FinishReason.length = refl
reason_of-reason_text FinishReason.content_filter = refl

pub content_of-codes : (s : String) → length (codes s) ≤ 50000 → content_of (codes s) ≡ ok s
unfolding content_of
content_of-codes s h = rw (ltb-false (length (codes s)) h, decode-codes s)
  where
    ltb-false : (n : ℕ) → n ≤ 50000 → ltb 50000 n ≡ false
    ltb-false n h = ground arith

-- An id that is empty reads as none.
abbrev pub or_cached_id : String → String
or_cached_id String.[] = "chatcmpl-cached"
or_cached_id (String.◌∷◌ c s) = String.◌∷◌ c s

id-or_cached :
    (id : String)
    → string_of (or_else (str (codes id)) (str (codes "chatcmpl-cached"))) ≡ ok (or_cached_id id)
id-or_cached String.[] = unfold decode in refl
id-or_cached (String.◌∷◌ c s) = rw (decode-codes (String.◌∷◌ c s))

-- A response with one choice.
abbrev pub one_choice : String → String → String → FinishReason → Usage → ℕ → ChatResponse
one_choice id model content reason u now = record {
  id = id;
  created = now;
  model = model;
  choices =
      record {
        index = 0;
        message = record { role = Role.assistant; content = content };
        finish_reason = reason;
      }
      ∷ [];
  usage = u;
}

pub to_response-acc :
    (id model content : String) (reason : FinishReason) (u : Usage) (now : ℕ)
    → length (codes content) ≤ 50000
    → to_response now (acc id model (codes content) (str (codes (reason_text reason))) u)
      ≡ ok (one_choice (or_cached_id id) model content reason u now)
unfolding to_response
to_response-acc id model content reason u now h =
    rw (
      content_of-codes content h,
      reason_of-reason_text reason,
      id-or_cached id,
      decode-codes model,
    )

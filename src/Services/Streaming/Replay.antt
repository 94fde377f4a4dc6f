-- ===== src/Services/Streaming/Replay.antt =====
-- src/llm_gateway/services/streaming.py: what a reader of a replayed stream makes of it.
use myown_llm_gateway.Base.{ℕ, none, some, List, [], ◌∷◌, ◌≡◌, refl, ◌≤◌, length}
use myown_llm_gateway.Base.Text.{Text, codes}
use myown_llm_gateway.Base.Unicode.{is_unicode-codes}
use myown_llm_gateway.Base.Json.{str, end}
use myown_llm_gateway.Base.Json.RoundTrip.{printable}
use myown_llm_gateway.Core.Exceptions.{ok}
use myown_llm_gateway.Models.Api.{ChatResponse, ChatResponseChoice, Usage}
use myown_llm_gateway.Models.Chunk.{delta_of, done_line}
use myown_llm_gateway.Services.Streaming.Cached.{synthesize_cached_stream}
use myown_llm_gateway.Services.Streaming.Assembly.{
  capture_all, assemble, usage_of, line_of, feed-role, feed-content, feed-last, feed-done,
  capture-other, capture-last, capture-done, or_cached_id, one_choice, to_response-acc,
}

module _ (r : ChatResponse) (choice : ChatResponseChoice) where
  abbrev pub lines_of : ℕ → ℕ → ℕ → List Text
  lines_of t t' t'' =
      line_of r.id r.model t (delta_of (some "assistant") none) none none
      ∷ line_of r.id r.model t' (delta_of none (some (str (codes choice.message.content)))) none
          none
      ∷ line_of r.id r.model t'' end (some choice.finish_reason) (some (usage_of r.usage))
      ∷ done_line
      ∷ []

  pub synthesize_cached_stream-lines_of :
      (others : List ChatResponseChoice) (t t' t'' : ℕ)
      → r.choices ≡ choice ∷ others
      → synthesize_cached_stream r t t' t'' ≡ ok (lines_of t t' t'')
  unfolding synthesize_cached_stream
  synthesize_cached_stream-lines_of others t t' t'' first = rw first

  pub capture_all-lines_of :
      (t t' t'' : ℕ) (u : Usage) → capture_all (lines_of t t' t'') u ≡ ok r.usage
  unfolding capture_all
  capture_all-lines_of t t' t'' u =
      let content = codes choice.message.content in
      rw (
        capture-other r.id r.model t (delta_of (some "assistant") none) u
            (unfold printable in refl),
        capture-other r.id r.model t' (delta_of none (some (str content))) u
            (unfold printable in (rw (is_unicode-codes choice.message.content))),
        capture-last r.id r.model t'' choice.finish_reason r.usage u,
        capture-done,
      )

  assemble-lines_of :
      (t t' t'' now : ℕ)
      → length (codes choice.message.content) ≤ 50000
      → assemble (lines_of t t' t'') now
        ≡ ok (
            one_choice
              (or_cached_id r.id)
              r.model
              choice.message.content
              choice.finish_reason
              r.usage
              now)
  unfolding assemble
  assemble-lines_of t t' t'' now bounded =
      let content = codes choice.message.content in
      rw (
        feed-role r.id r.model t,
        feed-content r.id r.model t' content [] _ _ (is_unicode-codes choice.message.content),
        feed-last r.id r.model t'' content choice.finish_reason _ r.usage _,
        feed-done,
        to_response-acc r.id r.model choice.message.content choice.finish_reason r.usage now
            bounded,
      )

-- A replay of a cached response with a choice of at most 50,000 characters of content has lines
-- from which a client assembles its first choice, under the response's id, model and usage; an
-- empty id reads as chatcmpl-cached. And the usage captured from them is the response's.
pub synthesize_cached_stream-assemble :
    (r : ChatResponse) (choice : ChatResponseChoice) (others : List ChatResponseChoice)
    (t t' t'' now : ℕ) (u : Usage)
    → r.choices ≡ choice ∷ others
    → length (codes choice.message.content) ≤ 50000
    → (lines : List Text) × (synthesize_cached_stream r t t' t'' ≡ ok lines)
      × (assemble lines now
          ≡ ok (
              one_choice
                (or_cached_id r.id)
                r.model
                choice.message.content
                choice.finish_reason
                r.usage
                now))
      × (capture_all lines u ≡ ok r.usage)
synthesize_cached_stream-assemble r choice others t t' t'' now u first bounded = (
  lines_of r choice t t' t'',
  synthesize_cached_stream-lines_of r choice others t t' t'' first,
  assemble-lines_of r choice t t' t'' now bounded,
  capture_all-lines_of r choice t t' t'' u,
)

-- ===== src/Providers/Anthropic/Closed.antt =====
-- src/llm_gateway/providers/anthropic.py: how every translated stream ends.
use myown_llm_gateway.Base.{
  ℕ, suc, String, Bool, true, false, ◌||◌, Option, none, some, [], ◌≡◌, refl, ◌⊎◌, inl, inr,
  if◌then◌else◌,
}
use myown_llm_gateway.Base.Int.{pos}
use myown_llm_gateway.Base.Text.{Text, codes, starts_with, text_eq}
use myown_llm_gateway.Base.Json.{Json, str, obj, end, or_else, dict_of}
use myown_llm_gateway.Core.Exceptions.{Exception, Result, ok, raise, ◌>>=◌}
use myown_llm_gateway.Core.Values.{get_of, get_or_of}
use myown_llm_gateway.Models.Api.{ChatRequest}
use myown_llm_gateway.Models.Chunk.{sse_line, done_line}
use myown_llm_gateway.Models.Provider.{ProviderConfig}
use myown_llm_gateway.Providers.Base.{
  Stream, finished, failed, line, Incoming, closed, broken, received, iter_sse_lines,
}
use myown_llm_gateway.Providers.Client.{Client}
use myown_llm_gateway.Providers.Anthropic.{Coercions, stop_reason_of}
use myown_llm_gateway.Providers.Anthropic.Events.{
  Translation, is_text, tokens, chunk, on_start, on_delta, on_stop_reason, on_event, event_of,
  on_line, translate, start, complete_stream,
}

abbrev is_done : Text → Bool
is_done l = text_eq l done_line

-- Events alone, and an end only once `done_line` was among them.
abbrev pub Closes : Bool → Stream → Type 0
Closes done finished = done ≡ true
Closes done (failed e) = Unit
Closes done (line l rest) =
    (starts_with l (codes "data: ") ≡ true) × Closes (done || is_done l) rest

Closes-true : (done : Bool) (s : Stream) → Closes done s → Closes true s
Closes-true done finished h = refl
Closes-true done (failed e) h = tt
Closes-true done (line l rest) h = (h.0, Closes-true (done || is_done l) rest h.1)

Closes-or : (done more : Bool) (s : Stream) → Closes done s → Closes (done || more) s
Closes-or true more s h = h
Closes-or false true s h = Closes-true false s h
Closes-or false false s h = h

-- What one round yields.
data IsRound (s : Translation) : Result (Option Text × Translation) → Type 0 where
  raised : (e : Exception) → IsRound s (raise e)
  silent : (s' : Translation) → s'.done_sent ≡ s.done_sent → IsRound s (ok (none, s'))
  sends :
      (out : Text) (s' : Translation)
      → starts_with out (codes "data: ") ≡ true
      → (s'.done_sent ≡ s.done_sent) ⊎ (is_done out ≡ true)
      → IsRound s (ok (some out, s'))

IsRound-bind :
    {A : Type 0} {s : Translation} (m : Result A) {f : A → Result (Option Text × Translation)}
    → ((a : A) → IsRound s (f a))
    → IsRound s (m >>= f)
IsRound-bind (ok a) k = k a
IsRound-bind (raise e) k = raised e

IsRound-if :
    {s : Translation} (b : Bool) {x y : Result (Option Text × Translation)}
    → IsRound s x
    → IsRound s y
    → IsRound s (if b then x else y)
IsRound-if true h k = h
IsRound-if false h k = k

starts_with-sse_line : (v : Json) → starts_with (sse_line v) (codes "data: ") ≡ true
unfolding sse_line starts_with
starts_with-sse_line v = refl

module _ (k : Coercions) (now : ℕ) (event : Json) (s : Translation) where
  on_start-IsRound : IsRound s (on_start k now event s)
  unfolding on_start chunk
  on_start-IsRound = IsRound-bind (get_or_of "message" (obj end) event) λ message.
      IsRound-bind (get_or_of "id" s.chunk_id message) λ id.
        IsRound-bind (get_or_of "model" s.model message) λ model.
          IsRound-bind (get_of "usage" message) λ nested. IsRound-bind (get_of "usage" event) λ own.
            IsRound-bind (tokens k "input_tokens" s.input_tokens (dict_of (or_else nested own)))
              λ input. sends _ _ (starts_with-sse_line _) (inl refl)

  if_sent : (b : Bool) (v : Json) → IsRound s (ok (if b then some (sse_line v) else none, s))
  if_sent true v = sends (sse_line v) s (starts_with-sse_line v) (inl refl)
  if_sent false v = silent s refl

  on_delta-IsRound : IsRound s (on_delta k now event s)
  unfolding on_delta chunk
  on_delta-IsRound = IsRound-bind (get_or_of "delta" (obj end) event) λ delta.
      IsRound-bind (get_of "type" delta)
        λ kind. IsRound-bind (get_or_of "text" (str []) delta) λ text. if_sent _ _

  on_stop_reason-IsRound : IsRound s (on_stop_reason k now event s)
  unfolding on_stop_reason chunk
  on_stop_reason-IsRound = IsRound-bind (get_or_of "delta" (obj end) event) λ delta.
      IsRound-bind (get_or_of "stop_reason" (str []) delta) λ reason.
        IsRound-bind (stop_reason_of reason) λ stop_reason.
          IsRound-bind (get_of "usage" event) λ usage.
            IsRound-bind (tokens k "output_tokens" (pos 0) (dict_of usage))
              λ output. sends _ _ (starts_with-sse_line _) (inl refl)

  on_event-IsRound : IsRound s (on_event k now event s)
  unfolding on_event
  on_event-IsRound = IsRound-bind (get_of "type" event) λ kind.
      IsRound-if (is_text "message_start" kind) on_start-IsRound (
        IsRound-if (is_text "content_block_delta" kind) on_delta-IsRound (
          IsRound-if (is_text "message_delta" kind) on_stop_reason-IsRound (
            IsRound-if (is_text "message_stop" kind)
              (sends done_line (record s { done_sent = true }) (unfold starts_with in refl)
                (inr (unfold text_eq in refl)))
              (silent s refl))))

on_line-IsRound :
    (k : Coercions) (now : ℕ) (event : Option Json) (s : Translation)
    → IsRound s (on_line k now event s)
on_line-IsRound k now none s = silent s refl
on_line-IsRound k now (some event) s = on_event-IsRound k now event s

-- The stream after a round.
abbrev resume : Result (Option Text × Translation) → (Translation → Stream) → Stream
resume r more = elim r [
  | raise e ↦ failed e
  | ok (none, s') ↦ more s'
  | ok (some out, s') ↦ line out (more s')
]

resume-Closes :
    {s : Translation} {r : Result (Option Text × Translation)} (more : Translation → Stream)
    → IsRound s r
    → ((s' : Translation) → Closes s'.done_sent (more s'))
    → Closes s.done_sent (resume r more)
resume-Closes more (raised e) h = tt
resume-Closes {s} more (silent s' same) h = rw (← same) (h s')
resume-Closes {s} more (sends out s' event (inl same)) h =
    (event, Closes-or s.done_sent (is_done out) (more s') (rw (← same) (h s')))
resume-Closes {s} more (sends out s' event (inr done)) h = (event, rw done (closed_by s.done_sent))
  where
    closed_by : (b : Bool) → Closes (b || true) (more s')
    closed_by true = Closes-true s'.done_sent (more s') (h s')
    closed_by false = Closes-true s'.done_sent (more s') (h s')

ended : (done : Bool) → Closes done (if done then finished else line done_line finished)
unfolding starts_with text_eq
ended true = refl
ended false = (refl, refl)

translate-Closes :
    (k : Coercions) (clock : ℕ → ℕ) (config : ProviderConfig) (t n : ℕ) (s : Translation)
    (incoming : Incoming)
    → Closes s.done_sent (translate k clock n s (iter_sse_lines config t incoming))
unfolding translate iter_sse_lines
translate-Closes k clock config t n s closed = ended s.done_sent
translate-Closes k clock config t n s (broken exc) = tt
translate-Closes k clock config t n s (received l rest) =
    resume-Closes _ (on_line-IsRound k (clock n) (event_of l) s)
      (λ s'. translate-Closes k clock config t (suc n) s' rest)

-- Whatever the upstream sends, a translated stream has lines that start with "data: " alone, and
-- it ends only after a `done_line` among them, unless it fails.
pub complete_stream-Closes :
    {W : Type 0} (k : Coercions) (client : Client W) (context : Option String)
    (config : ProviderConfig) (clock : ℕ → ℕ) (api_key : String) (request : ChatRequest) (w : W)
    → Closes false (complete_stream k client context config clock api_key request w).0
unfolding complete_stream
complete_stream-Closes k client context config clock api_key request w =
    translate-Closes k clock config config.timeout 0 (start k request) _

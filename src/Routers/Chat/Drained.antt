-- ===== src/Routers/Chat/Drained.antt =====
-- src/llm_gateway/routers/chat.py: what the loop of `_stream_response` has read when it ends.
use myown_llm_gateway.Base.{Option, none, some, List, [], ◌∷◌, ◌≡◌, refl, arith}
use myown_llm_gateway.Base.Text.{Text}
use myown_llm_gateway.Core.Exceptions.{Exception, Result, ok, raise, ◌>>=◌}
use myown_llm_gateway.Models.Api.{Usage}
use myown_llm_gateway.Providers.Base.{BaseProvider}
use myown_llm_gateway.Services.Streaming.{Relay, closed, raised, relayed}
use myown_llm_gateway.Services.Streaming.Chunks.{ChunkAccumulator, capture_usage, feed}
use myown_llm_gateway.Services.Streaming.Assembly.{capture_all, feed_all}
use myown_llm_gateway.Routers.Chat.Stream.{Served, or_first, advance, drain}

module _ {W : Type 0} where
  -- The variables after the loop are what the lines give, if no exception ended it.
  abbrev pub HasRead : Served W → List Text × Option Exception × Served W → Type 0
  HasRead s out =
      out.1 ≡ none
      → (capture_all out.0 s.usage ≡ ok out.2.usage)
        × (feed_all out.0 s.accumulator ≡ ok out.2.accumulator)

  -- The statements of `advance`, on what the two readers returned.
  advance_inversion :
      (p : BaseProvider W) (usage : Result Usage) (accumulator : Result ChunkAccumulator)
      (next : Served W)
      → (do
        u ← usage
        a ← accumulator
        ok (record { serving_provider = some p; usage = u; accumulator = a }))
        ≡ ok next
      → (usage ≡ ok next.usage)
        × (accumulator ≡ ok next.accumulator)
        × (next.serving_provider ≡ some p)
  advance_inversion p (raise e) a next h = cc
  advance_inversion p (ok u) (raise e) next h = cc
  advance_inversion p (ok u) (ok a) next h = ground arith

  advance-eq_ok :
      (p : BaseProvider W) (l : Text) (s next : Served W)
      → advance p l s ≡ ok next
      → (capture_usage l s.usage ≡ ok next.usage)
        × (feed l s.accumulator ≡ ok next.accumulator)
        × (next.serving_provider ≡ some (or_first s.serving_provider p))
  unfolding advance
  advance-eq_ok p l s next h =
      advance_inversion (or_first s.serving_provider p) (capture_usage l s.usage)
        (feed l s.accumulator) next h

  -- The step of the loop on what `advance` returned.
  abbrev after_step :
      Text → Relay W → Served W → Result (Served W) → List Text × Option Exception × Served W
  after_step l rest s r = elim r [
    | raise e ↦ ([], some e, s)
    | ok next ↦ (l ∷ (drain rest next).0, (drain rest next).1, (drain rest next).2)
  ]

  read_step :
      (p : BaseProvider W) (l : Text) (rest : Relay W) (s : Served W) (r : Result (Served W))
      → advance p l s ≡ r
      → ((next : Served W) → HasRead next (drain rest next))
      → HasRead s (after_step l rest s r)
  unfolding capture_all feed_all
  read_step p l rest s (raise e) e1 ih = λ h. cc
  read_step p l rest s (ok next) e1 ih = λ h.
      let (captured, fed, serving) = advance-eq_ok p l s next e1 in
      (rw captured ((ih next h).0), rw fed ((ih next h).1))

  pub drain-HasRead : (relay : Relay W) (s : Served W) → HasRead s (drain relay s)
  unfolding drain capture_all feed_all
  drain-HasRead closed s h = (refl, refl)
  drain-HasRead (raised e) s h = cc
  drain-HasRead (relayed p l rest) s h =
      read_step p l rest s _ refl (λ next. drain-HasRead rest next) h

  -- A provider that serves stays.
  abbrev HasProvider : Served W → Type 0
  HasProvider s = (p : BaseProvider W) × (s.serving_provider ≡ some p)

  abbrev Keeps : List Text × Option Exception × Served W → Type 0
  Keeps out = out.1 ≡ none → HasProvider out.2

  provider_step :
      (p : BaseProvider W) (l : Text) (rest : Relay W) (s : Served W) (r : Result (Served W))
      → advance p l s ≡ r
      → ((next : Served W) → HasProvider next → Keeps (drain rest next))
      → Keeps (after_step l rest s r)
  provider_step p l rest s (raise e) e1 ih = λ h. cc
  provider_step p l rest s (ok next) e1 ih =
      ih next (or_first s.serving_provider p, (advance-eq_ok p l s next e1).2)

  drain-Keeps : (relay : Relay W) (s : Served W) → HasProvider s → Keeps (drain relay s)
  unfolding drain
  drain-Keeps closed s has h = has
  drain-Keeps (raised e) s has h = cc
  drain-Keeps (relayed p l rest) s has h =
      provider_step p l rest s _ refl (λ next. drain-Keeps rest next) h

  -- A relay that starts with a line has a provider when its loop ends.
  pub drain-HasProvider :
      (p : BaseProvider W) (l : Text) (rest : Relay W) (s : Served W)
      → (drain (relayed p l rest) s).1 ≡ none
      → HasProvider (drain (relayed p l rest) s).2
  unfolding drain
  drain-HasProvider p l rest s = provider_step p l rest s _ refl (λ next. drain-Keeps rest next)

-- ===== src/Routers/Chat/Rows.antt =====
-- src/llm_gateway/routers/chat.py: the ends of the body of a streaming response, and the rows that they
-- leave.
use myown_llm_gateway.Base.{
  ℕ, String, Bool, true, false, Option, none, some, List, [], ◌∷◌, ◌++◌, ◌≡◌, refl, ap, ◌⊎◌, inl,
  inr, map, if◌then◌else◌,
}
use myown_llm_gateway.Base.Text.{Text}
use myown_llm_gateway.Core.Exceptions.{
  ProviderError, Exception, no_provider_available, Result, ok, value_error, index_error,
}
use myown_llm_gateway.Models.Api.{ChatRequest, ChatResponse, ChatResponseChoice, Usage, no_usage}
use myown_llm_gateway.Models.Usage.{UsageRecord}
use myown_llm_gateway.Services.Cache.{Codec}
use myown_llm_gateway.Services.SingleFlight.{State, Run, latency_ms}
use myown_llm_gateway.Services.Metrics.{build_usage_record}
use myown_llm_gateway.Models.Provider.{free, pricing_for}
use myown_llm_gateway.Providers.Base.{BaseProvider}
use myown_llm_gateway.Services.Streaming.{
  Relay, closed, raised, relayed, relay, schedule_stream_usage, schedule_cached_stream_usage,
}
use myown_llm_gateway.Services.Usage.{
  Task, persist, persist_failed, record_served, record_failed_request, fire_and_forget,
}
use myown_llm_gateway.Services.Streaming.Assembly.{capture_all}
use myown_llm_gateway.Services.Streaming.Refusals.{Refuses, fine, refused, to_response-Refuses}
use myown_llm_gateway.Services.Streaming.Cached.{synthesize_cached_stream}
use myown_llm_gateway.Services.Streaming.Replay.{
  lines_of, synthesize_cached_stream-lines_of, capture_all-lines_of,
}
use myown_llm_gateway.Services.Fallback.Laws.{names}
use myown_llm_gateway.Services.Streaming.Source.{IsOneSource, PassedThrough}
use myown_llm_gateway.Routers.Chat.Drained.{drain-HasRead, drain-HasProvider}
use myown_llm_gateway.Routers.Chat.Stream.{
  drain, unserved, ErrorEvent, relayed_line, error_event, Body, Served, on_failure, settle, fail,
  write, store, end_stream, replay, unix_time,
}

-- A row of usage of the key, with the tokens that the lines say.
abbrev IsServed : ℕ → Body → List Task → List Task → Type 0
IsServed key body before after =
    (lines : List Text) × (usage : Usage) × (r : UsageRecord) × (body.sent ≡ map relayed_line lines)
    × (capture_all lines no_usage ≡ ok usage)
    × (r.virtual_key_id ≡ key)
    × (r.input_tokens ≡ usage.prompt_tokens)
    × (r.output_tokens ≡ usage.completion_tokens)
    × (after ≡ before ++ persist r ∷ [])
    × ((body.ending ≡ none) ⊎ (body.ending ≡ some value_error))

-- A row of a failure of the key and the model, and an error event at the end.
abbrev IsFailed : ℕ → String → Body → List Task → List Task → Type 0
IsFailed key model body before after =
    (lines : List Text) × (event : ErrorEvent) × (latency : ℕ) × (kind : String) × (body.sent
      ≡ map relayed_line lines ++ error_event event ∷ [])
    × (body.ending ≡ none)
    × (after ≡ before ++ persist_failed key "" model latency kind ∷ [])

-- No row, and an exception at the end.
abbrev IsBroken : Body → List Task → List Task → Type 0
IsBroken body before after = (e : Exception) × (body.ending ≡ some e) × (after ≡ before)

abbrev pub IsStreamed : ℕ → String → Body → List Task → List Task → Type 0
IsStreamed key model body before after =
    IsServed key body before after
    ⊎ IsFailed key model body before after
    ⊎ IsBroken body before after

-- The relay is not at its end at once.
abbrev Opens : {W : Type 0} → Relay W → Type 0
Opens closed = ⊥
Opens (raised e) = Unit
Opens (relayed p l rest) = Unit

pub Opens-relay :
    {W : Type 0} (request : ChatRequest) (ps : List (BaseProvider W)) (out : Relay W × W)
    → ((last : Option ProviderError) × (out.0 ≡ raised (no_provider_available (names ps) last)))
      ⊎ IsOneSource request ps out
      ⊎ PassedThrough request ps out
    → Opens out.0
unfolding relay
Opens-relay request ps out (inl (last, e)) = rw e tt
Opens-relay request ps out (inr (inl (p, w, l, rest, there, called, e))) = rw e tt
Opens-relay request ps out (inr (inr (p, w, x, there, uncaught, called, e))) = rw e tt

module _ {W : Type 0} (codec : Codec) (ttl : ℕ) (run : Run W) (key : ℕ) (model : String)
    (before : List Task) where
  abbrev Streams : Body × State W → Type 0
  Streams out = IsStreamed key model out.0 before out.1.effects.pending

  abbrev latency : ℕ
  latency = latency_ms run.started (run.clock 9)

  fail-Streams :
      (lines : List Text) (e : Exception) (taken : Option (ErrorEvent × String)) (s : State W)
      → s.effects.pending ≡ before
      → Streams (fail codec ttl run key model lines e taken s)
  unfolding fail record_failed_request fire_and_forget
  fail-Streams lines e none s start = inr (inr (e, refl, start))
  fail-Streams lines e (some (event, kind)) s start = inr (
      inl (
        lines,
        event,
        latency,
        kind,
        refl,
        refl,
        ap (λ p. p ++ persist_failed key "" model latency kind ∷ []) start,
      ))

  abbrev pub row : BaseProvider W → Usage → UsageRecord
  row p usage =
      build_usage_record key p.config.name (pricing_for p.config model) model usage
        (latency_ms run.started (run.clock 9))

  -- A row of the key, with the tokens of the usage.
  abbrev HasRow : Usage → State W → Type 0
  HasRow usage s =
      (r : UsageRecord) × (r.virtual_key_id ≡ key)
      × (r.input_tokens ≡ usage.prompt_tokens)
      × (r.output_tokens ≡ usage.completion_tokens)
      × (s.effects.pending ≡ before ++ persist r ∷ [])

  write-Streams :
      (cache_key : String) (lines : List Text) (usage : Usage) (saw : Bool)
      {response : Result ChatResponse} (s : State W)
      → Refuses response
      → capture_all lines no_usage ≡ ok usage
      → HasRow usage s
      → Streams (
          if saw
          then write codec ttl run cache_key lines response s
          else (record { sent = map relayed_line lines; ending = none }, s))
  write-Streams cache_key lines usage false s h captured (r, k, i, o, after) =
      inl (lines, usage, r, refl, captured, k, i, o, after, inl refl)
  write-Streams cache_key lines usage true s (fine response) captured (r, k, i, o, after) =
      inl (lines, usage, r, refl, captured, k, i, o, after, inl refl)
  write-Streams cache_key lines usage true s refused captured (r, k, i, o, after) =
      inl (lines, usage, r, refl, captured, k, i, o, after, inr refl)

  settle-HasRow :
      (usage : Usage) (p : BaseProvider W) (s : State W)
      → s.effects.pending ≡ before
      → HasRow usage (settle codec ttl run key model usage (some p) s)
  unfolding settle schedule_stream_usage record_served fire_and_forget build_usage_record
  settle-HasRow usage p s start =
      (row p usage, refl, refl, refl, ap (λ (q : List Task). q ++ persist (row p usage) ∷ []) start)

  -- The end of a loop that began with a line.
  end_stream-Streams :
      (context : Option String) (cache_key : String) (lines : List Text) (ending : Option Exception)
      (served : Served W) (s : State W)
      → s.effects.pending ≡ before
      → (ending ≡ none
          → (capture_all lines no_usage ≡ ok served.usage)
            × ((p : BaseProvider W) × (served.serving_provider ≡ some p)))
      → Streams (end_stream codec ttl run context cache_key key model (lines, ending, served) s)
  unfolding end_stream store
  end_stream-Streams context cache_key lines (some e) served s start h =
      fail-Streams lines e (on_failure context model e) s start
  end_stream-Streams context cache_key lines none served s start h =
      let (captured, (p, serving)) = h refl in
      rw serving (
        write-Streams cache_key lines served.usage served.accumulator.saw_any_chunk _
          (to_response-Refuses (unix_time (run.clock 7)) served.accumulator) captured
          (settle-HasRow served.usage p s start))

  replay_row : ChatResponse → UsageRecord
  replay_row cached = build_usage_record key "cache" free cached.model cached.usage latency

  replay-HasRow :
      (cached : ChatResponse) (s : State W)
      → s.effects.pending ≡ before
      → HasRow cached.usage
          (record s { effects = schedule_cached_stream_usage key cached latency s.effects })
  unfolding replay_row schedule_cached_stream_usage record_served fire_and_forget build_usage_record
  replay-HasRow cached s start = (
    replay_row cached,
    refl,
    refl,
    refl,
    ap (λ (q : List Task). q ++ persist (replay_row cached) ∷ []) start,
  )

  pub replay-Streams :
      (cached : ChatResponse) (choices : List ChatResponseChoice) (t t' t'' : ℕ) (s : State W)
      → cached.choices ≡ choices
      → s.effects.pending ≡ before
      → Streams (replay codec ttl run key cached (synthesize_cached_stream cached t t' t'') s)
  replay-Streams cached [] t t' t'' s none_there start =
      unfold synthesize_cached_stream in (rw none_there (inr (inr (index_error, refl, start))))
  replay-Streams cached (choice ∷ others) t t' t'' s first start =
      let (r, k, i, o, after) = replay-HasRow cached s start in
      rw (synthesize_cached_stream-lines_of cached choice others t t' t'' first) (
        inl (
          lines_of cached choice t t' t'',
          cached.usage,
          r,
          refl,
          capture_all-lines_of cached choice t t' t'' no_usage,
          k,
          i,
          o,
          after,
          inl refl,
        ))

  -- The loop and its end.
  pub drain-Streams :
      (context : Option String) (cache_key : String) (r : Relay W) (s : State W)
      → Opens r
      → s.effects.pending ≡ before
      → Streams (end_stream codec ttl run context cache_key key model (drain r unserved) s)
  drain-Streams context cache_key closed s h start = absurd h
  drain-Streams context cache_key (raised e) s h start =
      unfold drain in end_stream-Streams context cache_key [] (some e) unserved s start (λ h. cc)
  drain-Streams context cache_key (relayed p l rest) s h start =
      let (lines, ending, served) = drain (relayed p l rest) unserved in
      end_stream-Streams context cache_key lines ending served s start λ done. (
        (drain-HasRead (relayed p l rest) unserved done).0,
        drain-HasProvider p l rest unserved done,
      )

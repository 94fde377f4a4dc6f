-- ===== src/Services/Cache/Waiting.antt =====
-- `wait_for_result`: the poll of the cache by a replica that did not get the lock.
use myown_llm_gateway.Base.{
  ℕ, zero, suc, ◌+◌, ◌*◌, ◌≤◌, ◌<◌, true, false, Option, none, some, ltb, if◌then◌else◌, ◌≡◌, refl,
  inl, inr, arith, Bool-cases, ltb→lt,
}
use myown_llm_gateway.Base.Text.{Text}
use myown_llm_gateway.Models.Api.{ChatResponse}
use myown_llm_gateway.Services.Cache.{Codec}

-- What Redis answers to one read: `RedisError`, no entry, or an entry.
pub data Answer : Type 0 where
  error nothing : Answer
  entry : Text → Answer

-- One round of the loop: the reading of the clock at its test, and the answer to its read.
pub record Round : Type 0 where
  pub clock : ℕ
  pub answer : Answer

abbrev poll_interval : ℕ
poll_interval = 50000

abbrev pub wait_timeout : ℕ
wait_timeout = 2000000

-- The loop from round `i` on; `none` means that the fuel ran out.
unfoldable pub wait_loop : Codec → ℕ → (ℕ → Round) → ℕ → ℕ → Option (Option ChatResponse)
wait_loop codec deadline rounds zero i = none
wait_loop codec deadline rounds (suc fuel) i =
    let rest = wait_loop codec deadline rounds fuel (suc i) in
    if ltb (rounds i).clock deadline
    then elim (rounds i).answer [
      | error ↦ some none
      | entry raw ↦ some (codec.decode raw)
      | nothing ↦ rest
    ]
    else some none

-- `wait_for_result`, called when the clock reads `started`
unfoldable pub wait_for_result : Codec → ℕ → (ℕ → Round) → ℕ → Option (Option ChatResponse)
wait_for_result codec started rounds fuel = wait_loop codec (started + wait_timeout) rounds fuel 0

-- The waiter got `v` from an entry that it read in time, or got nothing.
abbrev pub Explains : Codec → ℕ → (ℕ → Round) → Option ChatResponse → Type 0
Explains codec deadline rounds none = Unit
Explains codec deadline rounds (some v) =
    (i : ℕ) × (raw : Text) × ((rounds i).clock < deadline)
    × ((rounds i).answer ≡ entry raw)
    × (codec.decode raw ≡ some v)

Explains-decode :
    (codec : Codec) (deadline : ℕ) (rounds : ℕ → Round) (i : ℕ) (raw : Text)
    (o : Option ChatResponse)
    → (rounds i).clock < deadline
    → (rounds i).answer ≡ entry raw
    → codec.decode raw ≡ o
    → Explains codec deadline rounds o
Explains-decode codec deadline rounds i raw none t a d = tt
Explains-decode codec deadline rounds i raw (some v) t a d = (i, raw, t, a, d)

-- The loop from round `i` on returns, and its result is explained.
abbrev Returns : Codec → ℕ → (ℕ → Round) → ℕ → ℕ → Type 0
Returns codec deadline rounds fuel i =
    (r : Option ChatResponse) × (wait_loop codec deadline rounds fuel i ≡ some r)
    × Explains codec deadline rounds r

late-Returns :
    (codec : Codec) (deadline : ℕ) (rounds : ℕ → Round) (fuel i : ℕ)
    → ltb (rounds i).clock deadline ≡ false
    → Returns codec deadline rounds (suc fuel) i
unfolding wait_loop
late-Returns codec deadline rounds fuel i late = (none, rw late refl, tt)

early-Returns :
    (codec : Codec) (deadline : ℕ) (rounds : ℕ → Round) (fuel i : ℕ) (a : Answer)
    → (rounds i).answer ≡ a
    → ltb (rounds i).clock deadline ≡ true
    → Returns codec deadline rounds fuel (suc i)
    → Returns codec deadline rounds (suc fuel) i
unfolding wait_loop
early-Returns codec deadline rounds fuel i error e early rest = (none, rw early (rw e refl), tt)
early-Returns codec deadline rounds fuel i nothing e early rest =
    (rest.0, rw early (rw e rest.1), rest.2)
early-Returns codec deadline rounds fuel i (entry raw) e early rest = (
  codec.decode raw,
  rw early (rw e refl),
  Explains-decode codec deadline rounds i raw (codec.decode raw) (ltb→lt _ _ early) e refl,
)

wait_loop_total :
    (codec : Codec) (deadline : ℕ) (rounds : ℕ → Round) (fuel i : ℕ)
    → ((j : ℕ) → (rounds j).clock + poll_interval ≤ (rounds (suc j)).clock)
    → deadline ≤ (rounds i).clock + fuel * poll_interval
    → Returns codec deadline rounds (suc fuel) i
wait_loop_total codec deadline rounds zero i ticks enough =
    late-Returns codec deadline rounds zero i (ground arith)
wait_loop_total codec deadline rounds (suc fuel) i ticks enough =
    elim (Bool-cases (ltb (rounds i).clock deadline)) [
      | inr late ↦ late-Returns codec deadline rounds (suc fuel) i late
      | inl early ↦
          early-Returns codec deadline rounds (suc fuel) i (rounds i).answer refl early
            (wait_loop_total codec deadline rounds fuel (suc i) ticks (omega (arith, ticks i)))
    ]

-- If the clock does not run backwards and each sleep takes the poll interval at least, the wait
-- ends within 41 rounds, whatever Redis answers; and a response that it returns is one that an
-- entry read before the deadline decodes to.
pub wait_for_result_total :
    (codec : Codec) (started : ℕ) (rounds : ℕ → Round)
    → started ≤ (rounds 0).clock
    → ((j : ℕ) → (rounds j).clock + poll_interval ≤ (rounds (suc j)).clock)
    → (r : Option ChatResponse) × (wait_for_result codec started rounds 41 ≡ some r)
      × Explains codec (started + wait_timeout) rounds r
unfolding wait_for_result
wait_for_result_total codec started rounds start ticks =
    wait_loop_total codec (started + wait_timeout) rounds 40 0 ticks (omega arith)

-- ===== src/Routers/Chat/Guarded.antt =====
-- src/llm_gateway/routers/chat.py: the endpoint behind its dependencies, in FastAPI's order. The
-- rate limiter's sets are a function of the key.
use myown_llm_gateway.Base.{ℕ, String, Option, some, ◌==◌, if◌then◌else◌, ◌≡◌, refl, ◌⊎◌, inl, inr}
use myown_llm_gateway.Base.Dict.{Dict}
use myown_llm_gateway.Base.Text.{Text}
use myown_llm_gateway.Core.RateLimiter.{Limits, Delivery, SortedSet}
use myown_llm_gateway.Models.Api.{ChatRequest}
use myown_llm_gateway.Providers.Base.{BaseProvider}
use myown_llm_gateway.Services.Cache.{Codec}
use myown_llm_gateway.Services.SingleFlight.{State, Run}
use myown_llm_gateway.Services.Usage.{Effects}
use myown_llm_gateway.Storage.Orm.{Database}
use myown_llm_gateway.Routers.Http.{Http, reply, refuse, crash, HeaderValue}
use myown_llm_gateway.Routers.Chat.Auth.{authenticate_request}
use myown_llm_gateway.Routers.Chat.Guards.{enforce_rate_limit, enforce_spend_cap}
use myown_llm_gateway.Routers.Chat.Completions.{Reply, chat_completions}

-- The settings, and what the request meets.
pub record Context (W : Type 0) : Type 0 where
  pub hash : Text → String
  pub limits : Limits
  pub global_limit : Option ℕ
  pub max_tokens_per_request : ℕ
  pub codec : Codec
  pub ttl_seconds : ℕ
  pub digest : ChatRequest × Option ℕ → String
  pub registry : Dict (BaseProvider W)
  pub run : Run W
  pub pipe : Delivery
  pub undo : Delivery
  pub now : ℕ
  pub token : ℕ

abbrev update : ℕ → SortedSet → (ℕ → SortedSet) → ℕ → SortedSet
update key z sets k = if k == key then z else sets k

module _ {W : Type 0} (c : Context W) (db : Database) (body : ChatRequest) where
  abbrev Outcome : Type 0
  Outcome = Option (Http Reply) × (ℕ → SortedSet) × State W

  -- After `enforce_spend_cap`.
  unfoldable after_cap : Http ℕ → (ℕ → SortedSet) → State W → Outcome
  after_cap (refuse e) sets s = (some (refuse e), sets, s)
  after_cap (crash e) sets s = (some (crash e), sets, s)
  after_cap (reply key) sets s =
      let (outcome, s') =
        chat_completions c.codec c.ttl_seconds c.run c.digest c.max_tokens_per_request body
          c.registry key s in
      (outcome, sets, s')

  -- After `enforce_rate_limit`.
  unfoldable after_limit :
      ℕ → Http ℕ × Dict HeaderValue × Effects × SortedSet → (ℕ → SortedSet) → State W → Outcome
  unfolding after_cap
  after_limit key (refuse e, headers, effects, z) sets s =
      (some (refuse e), update key z sets, record s { effects = effects })
  after_limit key (crash e, headers, effects, z) sets s =
      (some (crash e), update key z sets, record s { effects = effects })
  after_limit key (reply k, headers, effects, z) sets s =
      after_cap (enforce_spend_cap c.global_limit key db) (update key z sets)
        (record s { effects = effects })

  -- After `authenticate_request`.
  unfoldable pub after_auth : Http ℕ → (ℕ → SortedSet) → State W → Outcome
  unfolding after_limit
  after_auth (refuse e) sets s = (some (refuse e), sets, s)
  after_auth (crash e) sets s = (some (crash e), sets, s)
  after_auth (reply key) sets s =
      after_limit key
        (enforce_rate_limit c.limits c.pipe c.undo c.now c.token key (sets key) s.effects) sets s

  unfoldable pub serve : Option Text → (ℕ → SortedSet) → State W → Outcome
  unfolding after_auth
  serve header sets s = after_auth (authenticate_request c.hash header c.now db) sets s

  -- The request passed its three guards as the key.
  pub record Passes (header : Option Text) (sets : ℕ → SortedSet) (s : State W) (key : ℕ)
      : Type 0 where
    pub authenticated : authenticate_request c.hash header c.now db ≡ reply key
    pub allowed :
        (k : ℕ) × ((enforce_rate_limit c.limits c.pipe c.undo c.now c.token key
            (sets key)
            s.effects).0
          ≡ reply k)
    below_cap : (k : ℕ) × (enforce_spend_cap c.global_limit key db ≡ reply k)

  -- No provider was called, and the cache, the lock and the table of requests in flight are as
  -- they were.
  abbrev pub IsUntouched : State W → State W → Type 0
  IsUntouched s s' = (s'.world ≡ s.world) × (s'.redis ≡ s.redis) × (s'.inflight ≡ s.inflight)

  after_cap_cases :
      (outcome : Http ℕ) (sets : ℕ → SortedSet) (s : State W)
      → IsUntouched s (after_cap outcome sets s).2 ⊎ ((k : ℕ) × (outcome ≡ reply k))
  unfolding after_cap
  after_cap_cases (refuse e) sets s = inl (refl, refl, refl)
  after_cap_cases (crash e) sets s = inl (refl, refl, refl)
  after_cap_cases (reply k) sets s = inr (k, refl)

  after_limit_cases :
      (key : ℕ) (outcome : Http ℕ × Dict HeaderValue × Effects × SortedSet) (sets : ℕ → SortedSet)
      (s : State W)
      → IsUntouched s (after_limit key outcome sets s).2
        ⊎ (((k : ℕ) × (outcome.0 ≡ reply k))
            × ((k : ℕ) × (enforce_spend_cap c.global_limit key db ≡ reply k)))
  unfolding after_limit
  after_limit_cases key (refuse e, headers, effects, z) sets s = inl (refl, refl, refl)
  after_limit_cases key (crash e, headers, effects, z) sets s = inl (refl, refl, refl)
  after_limit_cases key (reply k, headers, effects, z) sets s =
      elim (after_cap_cases (enforce_spend_cap c.global_limit key db) (update key z sets)
        (record s { effects = effects })) [
          | inl same ↦ inl same
          | inr below ↦ inr ((k, refl), below)
        ]

  after_auth_cases :
      (header : Option Text) (outcome : Http ℕ) (sets : ℕ → SortedSet) (s : State W)
      → authenticate_request c.hash header c.now db ≡ outcome
      → IsUntouched s (after_auth outcome sets s).2 ⊎ ((key : ℕ) × Passes header sets s key)
  unfolding after_auth
  after_auth_cases header (refuse e) sets s known = inl (refl, refl, refl)
  after_auth_cases header (crash e) sets s known = inl (refl, refl, refl)
  after_auth_cases header (reply key) sets s known =
      elim (after_limit_cases key
        (enforce_rate_limit c.limits c.pipe c.undo c.now c.token key (sets key) s.effects) sets s) [
          | inl same ↦ inl same
          | inr (allowed, below) ↦
              inr (key, record { authenticated = known; allowed = allowed; below_cap = below })
        ]

-- A request that changes anything at a provider, in the cache, at the lock or in the table of
-- requests in flight has passed its three guards: its key authenticated, the rate limit let it
-- through, and so did the spend caps.
pub serve_guarded :
    {W : Type 0} (c : Context W) (db : Database) (body : ChatRequest) (header : Option Text)
    (sets : ℕ → SortedSet) (s : State W)
    → IsUntouched c db body s (serve c db body header sets s).2
      ⊎ ((key : ℕ) × Passes c db body header sets s key)
unfolding serve
serve_guarded c db body header sets s =
    after_auth_cases c db body header (authenticate_request c.hash header c.now db) sets s refl

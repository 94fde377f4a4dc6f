-- ===== src/Core/RateLimiter.antt =====
-- src/llm_gateway/core/rate_limiter.py: the sliding window over a Redis sorted set. Times are in
-- microseconds, and Redis has the clock of the gateway. The children hold the proofs.
pub mod Window
pub mod Step
pub mod Refinement
pub mod Status
use myown_llm_gateway.Base.{
  ℕ, ◌+◌, ◌-◌, ◌*◌, Bool, true, false, not, ◌&&◌, Option, none, some, List, [], ◌∷◌, length, filter,
  any, leb, ltb, ◌==◌, if◌then◌else◌,
}

-- `Settings.RATE_LIMIT_*`
pub record Limits : Type 0 where
  pub requests : ℕ
  pub window_seconds : ℕ
  pub fail_open : Bool

abbrev pub window : Limits → ℕ
window s = s.window_seconds * 1000000

-- A member `f"{now}:{token}"` with its score.
pub record Entry : Type 0 where
  pub stamp : ℕ
  pub token : ℕ
  pub score : ℕ

-- The sorted set of a key, and the time at which Redis drops the key.
pub record SortedSet : Type 0 where
  pub entries : List Entry
  pub expires_at : Option ℕ

abbrev pub no_key : SortedSet
no_key = record { entries = []; expires_at = none }

abbrev pub same_member : ℕ → ℕ → Entry → Bool
same_member stamp token e = e.stamp == stamp && e.token == token

-- What a command at `now` finds.
abbrev pub live_entries : ℕ → SortedSet → List Entry
live_entries now z = elim z.expires_at [
  | none ↦ z.entries
  | some e ↦ if leb e now then [] else z.entries
]

-- Stamped after the start of the window that ends at `now`: `now - window < score`.
abbrev pub recent : Limits → ℕ → Entry → Bool
recent s now e = ltb now (e.score + window s)

-- `zadd(key, {member: score})`: a member that is there gets the new score
unfoldable pub zadd : Entry → List Entry → List Entry
zadd e es = e ∷ filter (λ x. not (same_member e.stamp e.token x)) es

-- `zrem(key, member)`
unfoldable pub zrem : ℕ → ℕ → List Entry → List Entry
zrem stamp token = filter (λ x. not (same_member stamp token x))

-- How a command fares: it is answered, it is lost on the way, or it runs and its answer is lost.
-- The last two raise `RedisError`.
pub data Delivery : Type 0 where
  answered lost unanswered : Delivery

-- `zremrangebyscore`, `zadd`, `zcard` and `expire`, in one transaction: the set and its size
unfoldable pub pipeline : Limits → ℕ → ℕ → SortedSet → SortedSet × ℕ
unfolding zadd
pipeline s now token z =
    let pruned = filter (recent s now) (live_entries now z) in
    let added = zadd (record { stamp = now; token = token; score = now }) pruned in
    (record { entries = added; expires_at = some (now + window s) }, length added)

pub record RateLimitStatus : Type 0 where
  pub allowed : Bool
  pub limit : ℕ
  pub remaining : ℕ
  pub window_seconds : ℕ

-- The set after the rollback of a rejected request, whose failure changes no verdict.
unfoldable pub rollback : Delivery → ℕ → ℕ → SortedSet → SortedSet
rollback lost now token z = z
rollback _ now token z = record z { entries = zrem now token z.entries }

-- The verdict on an answered transaction with `count` members.
unfoldable pub verdict : Limits → ℕ → RateLimitStatus
verdict s count =
    let allowed = leb count s.requests in
    record {
      allowed = allowed;
      limit = s.requests;
      remaining = if allowed then s.requests - count else 0;
      window_seconds = s.window_seconds;
    }

-- The status on `RedisError`.
unfoldable pub unmetered : Limits → RateLimitStatus
unmetered s = record {
  allowed = s.fail_open;
  limit = s.requests;
  remaining = if s.fail_open then s.requests else 0;
  window_seconds = s.window_seconds;
}

-- `check_rate_limit_status`, over the two deliveries and the fresh token
unfoldable pub check_rate_limit_status :
    Limits → Delivery → Delivery → ℕ → ℕ → SortedSet → RateLimitStatus × SortedSet
check_rate_limit_status s lost undo now token z = (unmetered s, z)
check_rate_limit_status s unanswered undo now token z = (unmetered s, (pipeline s now token z).0)
check_rate_limit_status s answered undo now token z =
    let (z', count) = pipeline s now token z in
    let status = verdict s count in
    (status, if status.allowed then z' else rollback undo now token z')

-- `check_rate_limit`
unfoldable pub check_rate_limit :
    Limits → Delivery → Delivery → ℕ → ℕ → SortedSet → Bool × SortedSet
check_rate_limit s pipe undo now token z =
    let (status, z') = check_rate_limit_status s pipe undo now token z in (status.allowed, z')

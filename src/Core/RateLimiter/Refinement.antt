-- ===== src/Core/RateLimiter/Refinement.antt =====
-- src/llm_gateway/core/rate_limiter.py: runs of answered checks on one key.
use myown_llm_gateway.Base.{
  ℕ, ◌≤◌, Bool, ◌&&◌, List, [], ◌∷◌, length, filter, leb, if◌then◌else◌, All, ◌≢◌,
}
use myown_llm_gateway.Core.RateLimiter.{Limits, Entry, SortedSet, answered, check_rate_limit}
use myown_llm_gateway.Core.RateLimiter.Window.{in_window, IsFresh, fits, admit}

-- A request by its time and the random token of its member.
pub record Arrival : Type 0 where
  pub now : ℕ
  pub token : ℕ

-- The verdicts on a sequence of requests, from a set on.
unfoldable pub verdicts : Limits → List Arrival → SortedSet → List Bool
verdicts s [] z = []
verdicts s (r ∷ rs) z =
    let (allowed, z') = check_rate_limit s answered answered r.now r.token z in
    allowed ∷ verdicts s rs z'

-- The same by the record of accepted stamps alone, and that record at the end.
abbrev pub expected : Limits → List Arrival → List ℕ → List Bool
expected s [] accepted = []
expected s (r ∷ rs) accepted = fits s r.now accepted ∷ expected s rs (admit s r.now accepted)

abbrev pub admitted : Limits → List Arrival → List ℕ → List ℕ
admitted s [] accepted = accepted
admitted s (r ∷ rs) accepted = admitted s rs (admit s r.now accepted)

-- Time does not run backwards.
abbrev InOrder : ℕ → List Arrival → Type 0
InOrder since [] = Unit
InOrder since (r ∷ rs) = (since ≤ r.now) × InOrder r.now rs

-- No token is drawn twice.
abbrev DistinctTokens : List Arrival → Type 0
DistinctTokens [] = Unit
DistinctTokens (r ∷ rs) = All (λ q. r.token ≢ q.token) rs × DistinctTokens rs

-- The set holds none of the tokens to come.
abbrev Unused : List Arrival → List Entry → Type 0
Unused rs es = All (λ q. IsFresh q.token es) rs

-- The stamps of the requests that passed.
abbrev pub passed : List Arrival → List Bool → List ℕ
passed [] bs = []
passed (r ∷ rs) [] = []
passed (r ∷ rs) (b ∷ bs) = if b then r.now ∷ passed rs bs else passed rs bs

-- In the window of `window` microseconds that ends at `t`.
abbrev pub within : Limits → ℕ → ℕ → Bool
within s t x = leb x t && in_window s t x

abbrev IsLimited : Limits → List ℕ → Type 0
IsLimited s xs = (t : ℕ) → length (filter (within s t) xs) ≤ s.requests

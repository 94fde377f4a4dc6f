-- ===== src/Core/RateLimiter/Window.antt =====
-- src/llm_gateway/core/rate_limiter.py: the sorted set and the record of accepted requests.
use myown_llm_gateway.Base.{
  ℕ, suc, ◌+◌, ◌≤◌, Bool, true, false, not, Option, none, some, List, [], ◌∷◌, length, filter, leb,
  ltb, if◌then◌else◌, ◌≡◌, refl, arith, All, All-map, Bool-cases, inl, inr, map, ◌≢◌, All-filter_of,
  filter_id, filter_none, sym,
}
use myown_llm_gateway.Core.RateLimiter.{
  Limits, window, Entry, SortedSet, live_entries, recent, same_member, zadd, zrem, pipeline,
}

-- A request stamped `x` counts at the time `t`.
abbrev pub in_window : Limits → ℕ → ℕ → Bool
in_window s t x = ltb t (x + window s)

-- No member carries the token.
abbrev pub IsFresh : ℕ → List Entry → Type 0
IsFresh token es = All (λ e. e.token ≢ token) es

-- At `since` the set `z` stands for the accepted stamps `accepted`: no score is later, Redis drops the
-- key only when no score counts any more, and from then on the same stamps count.
pub record Tracks (s : Limits) (since : ℕ) (z : SortedSet) (accepted : List ℕ) : Type 0 where
  pub past : All (λ e. e.score ≤ since) z.entries
  pub kept : (x : ℕ) → z.expires_at ≡ some x → All (λ e. e.score + window s ≤ x) z.entries
  pub same :
      (t : ℕ)
      → since ≤ t
      → map (λ e. e.score) (filter (recent s t) z.entries) ≡ filter (in_window s t) accepted

-- The specification: accept if with this request at most `requests` count.
abbrev pub fits : Limits → ℕ → List ℕ → Bool
fits s now accepted = leb (suc (length (filter (in_window s now) accepted))) s.requests

abbrev pub admit : Limits → ℕ → List ℕ → List ℕ
admit s now accepted = if fits s now accepted then now ∷ accepted else accepted

-- The key's expiry hides nothing that counts.
filter-live :
    (s : Limits) (t : ℕ) (z : SortedSet)
    → ((x : ℕ) → z.expires_at ≡ some x → All (λ e. e.score + window s ≤ x) z.entries)
    → filter (recent s t) (live_entries t z) ≡ filter (recent s t) z.entries
filter-live s t z kept = go z.expires_at refl
  where
    gone : (x : ℕ) → x ≤ t → z.expires_at ≡ some x → [] ≡ filter (recent s t) z.entries
    gone x le e = sym (
        filter_none (recent s t) z.entries
          (All-map _ (λ y. recent s t y ≡ false) z.entries (λ y h. ground arith) (kept x e)))

    go :
        (o : Option ℕ)
        → z.expires_at ≡ o
        → filter (recent s t) (live_entries t z) ≡ filter (recent s t) z.entries
    go none e = rw (e, live_entries) refl
    go (some x) e = elim (Bool-cases (leb x t)) [
      | inl le ↦ rw (e, live_entries) (rw le (gone x (ground arith) e))
      | inr gt ↦ rw (e, live_entries) (rw gt refl)
    ]

-- What `pipeline` prunes to.
abbrev pub pruned : Limits → ℕ → SortedSet → List Entry
pruned s now z = filter (recent s now) z.entries

fresh-not_same :
    (now token : ℕ) (es : List Entry)
    → IsFresh token es
    → All (λ x. not (same_member now token x) ≡ true) es
fresh-not_same now token es h =
    All-map _ (λ x. not (same_member now token x) ≡ true) es (λ x ne. ground arith) h

abbrev stamped : ℕ → ℕ → Entry
stamped now token = record { stamp = now; token = token; score = now }

-- The set after an accepted and after a rejected request.
abbrev pub added : Limits → ℕ → ℕ → SortedSet → SortedSet
added s now token z = record {
  entries = stamped now token ∷ pruned s now z;
  expires_at = some (now + window s);
}

abbrev pub undone : Limits → ℕ → SortedSet → SortedSet
undone s now z = record { entries = pruned s now z; expires_at = some (now + window s) }

module _ (s : Limits) (now token : ℕ) (z : SortedSet)
    (kept : (x : ℕ) → z.expires_at ≡ some x → All (λ e. e.score + window s ≤ x) z.entries)
    (fresh : IsFresh token z.entries) where
  pub pipeline-eq : pipeline s now token z ≡ (added s now token z, suc (length (pruned s now z)))
  unfolding pipeline zadd
  pipeline-eq = rw (filter-live s now z kept) (
      rw
        (filter_id (λ x. not (same_member now token x)) (pruned s now z)
          (fresh-not_same now token (pruned s now z)
            (All-filter_of _ (recent s now) z.entries fresh)))
        refl)

  pub zrem-stamped : zrem now token (stamped now token ∷ pruned s now z) ≡ pruned s now z
  unfolding zrem
  zrem-stamped = ground (
    arith,
    filter_id (λ x. not (same_member now token x)) (pruned s now z)
        (fresh-not_same now token (pruned s now z)
          (All-filter_of _ (recent s now) z.entries fresh)),
  )

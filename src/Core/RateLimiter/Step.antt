-- ===== src/Core/RateLimiter/Step.antt =====
-- src/llm_gateway/core/rate_limiter.py: one answered check.
use myown_llm_gateway.Base.{
  ℕ, ◌+◌, ◌≤◌, Bool, true, false, some, List, ◌∷◌, length, filter, if◌then◌else◌, ◌≡◌, refl, arith,
  All, All-map, some, map, All-filter_of, filter_absorb, length-map, sym, ap, ◌∙◌,
}
use myown_llm_gateway.Core.RateLimiter.{
  Limits, window, SortedSet, recent, answered, rollback, verdict, check_rate_limit_status,
  check_rate_limit,
}
use myown_llm_gateway.Core.RateLimiter.Window.{
  in_window, IsFresh, Tracks, fits, admit, pruned, added, undone, pipeline-eq, zrem-stamped,
}

module _ (s : Limits) (since now token : ℕ) (z : SortedSet) (accepted : List ℕ)
    (later : since ≤ now) (tracks : Tracks s since z accepted)
    (fresh : IsFresh token z.entries) where
  length-pruned : length (pruned s now z) ≡ length (filter (in_window s now) accepted)
  length-pruned =
      sym (length-map (pruned s now z) (λ e. e.score)) ∙ ap length (tracks.same now later)

  -- The whole check, whose verdict is that of the specification.
  pub check-eq :
      check_rate_limit s answered answered now token z
      ≡ (fits s now accepted, if fits s now accepted then added s now token z else undone s now z)
  unfolding check_rate_limit check_rate_limit_status verdict rollback
  check-eq =
      rw (pipeline-eq s now token z tracks.kept fresh)
        (rw (zrem-stamped s now token z tracks.kept fresh) (rw length-pruned refl))

  pruned-past : All (λ e. e.score ≤ now) (pruned s now z)
  pruned-past =
      All-filter_of _ (recent s now) z.entries
        (All-map _ (λ e. e.score ≤ now) z.entries (λ e h. omega arith) tracks.past)

  pruned-kept :
      (x : ℕ) → some (now + window s) ≡ some x → All (λ e. e.score + window s ≤ x) (pruned s now z)
  pruned-kept x e =
      let le : now + window s ≡ x = cc in
      All-map _ (λ e. e.score + window s ≤ x) (pruned s now z) (λ e h. omega arith) pruned-past

  pruned-same :
      (t : ℕ)
      → now ≤ t
      → map (λ e. e.score) (filter (recent s t) (pruned s now z)) ≡ filter (in_window s t) accepted
  pruned-same t le =
      ap (map (λ e. e.score))
        (filter_absorb (recent s t) (recent s now) z.entries (λ e h. ground arith))
      ∙ tracks.same t (omega arith)

  undone-Tracks : Tracks s now (undone s now z) accepted
  undone-Tracks = record { past = pruned-past; kept = pruned-kept; same = pruned-same }

  added-Tracks : Tracks s now (added s now token z) (now ∷ accepted)
  added-Tracks = record {
    past = (omega arith, pruned-past);
    kept = λ x e. (ground arith, pruned-kept x e);
    same = λ t le. ground (arith, pruned-same t le);
  }

  -- The set that is left stands for the stamps that the specification has accepted.
  pub left-Tracks :
      Tracks s now
        (if fits s now accepted then added s now token z else undone s now z)
        (admit s now accepted)
  left-Tracks = go (fits s now accepted)
    where
      go :
          (b : Bool)
          → Tracks s now
              (if b then added s now token z else undone s now z)
              (if b then now ∷ accepted else accepted)
      go true = added-Tracks
      go false = undone-Tracks

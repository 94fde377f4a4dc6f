-- ===== src/Storage/Repositories/Pages.antt =====
-- src/llm_gateway/storage/repositories.py: the pages of `list_usage_logs`.
use mathlib.Core.List.{Perm}
use native.Mathlib.Nat.{zero-add, suc-add, zero-mul}
use myown_llm_gateway.Base.{
  ℕ, zero, suc, ◌+◌, ◌*◌, ◌≤◌, List, [], ◌∷◌, ◌++◌, length, filter, take, drop, ◌≡◌, refl, ◌∙◌, ap,
  arith,
}
use myown_llm_gateway.Base.Int.{pos, neg}
use myown_llm_gateway.Base.Sort.{
  sort_by, sort_by-perm, sort_by-IsSortedBy, IsSortedBy, length-sort_by,
}
use myown_llm_gateway.Storage.Orm.{UsageLog, Database}
use myown_llm_gateway.Storage.Repositories.{LogFilter, matches, list_usage_logs, count_usage_logs}

-- The first `n` pages of `size` rows.
abbrev pub pages : ℕ → ℕ → LogFilter → Database → List UsageLog
pages zero size f db = []
pages (suc n) size f db = pages n size f db ++ list_usage_logs size f (n * size) db

take-nil : {A : Type 0} (n : ℕ) → take {A = A} n [] ≡ []
take-nil zero = refl
take-nil (suc n) = refl

take-append-take :
    {A : Type 0} (n m : ℕ) (xs : List A) → take n xs ++ take m (drop n xs) ≡ take (n + m) xs
take-append-take zero m xs = rw zero-add
take-append-take (suc n) m [] = rw suc-add (take-nil m)
take-append-take (suc n) m (x ∷ xs) = rw suc-add (ap (◌∷◌ x) (take-append-take n m xs))

take_all : {A : Type 0} (n : ℕ) (xs : List A) → length xs ≤ n → take n xs ≡ xs
take_all zero [] h = refl
take_all (suc n) [] h = refl
take_all zero (x ∷ xs) h = absurd (omega arith)
take_all (suc n) (x ∷ xs) h = ap (◌∷◌ x) (take_all n xs (omega arith))

-- The rows that a query is about, newest first.
abbrev newest_first : LogFilter → Database → List UsageLog
newest_first f db = sort_by (λ l. neg (pos l.id)) (filter (matches f) db.usage_logs)

pages-eq-take :
    (n size : ℕ) (f : LogFilter) (db : Database)
    → pages n size f db ≡ take (n * size) (newest_first f db)
unfolding list_usage_logs
pages-eq-take zero size f db = rw zero-mul
pages-eq-take (suc n) size f db =
    ap (λ front. front ++ take size (drop (n * size) (newest_first f db)))
      (pages-eq-take n size f db)
    ∙ take-append-take (n * size) size (newest_first f db)
    ∙ ap (λ (k : ℕ). take k (newest_first f db)) (grind arith)

-- Once `count_usage_logs` rows fit on the first `n` pages, these pages together hold exactly the
-- rows that match the filter, each as often as the table does, in descending order of their ids.
pub pages_complete :
    (n size : ℕ) (f : LogFilter) (db : Database)
    → count_usage_logs f db ≤ n * size
    → Perm (pages n size f db) (filter (matches f) db.usage_logs)
      × IsSortedBy (λ l. neg (pos l.id)) (pages n size f db)
      × (length (pages n size f db) ≡ count_usage_logs f db)
unfolding count_usage_logs
pages_complete n size f db h = rw whole (
  sort_by-perm (λ l. neg (pos l.id)) matching,
  sort_by-IsSortedBy (λ l. neg (pos l.id)) matching,
  length-sort_by (λ l. neg (pos l.id)) matching,
)
  where
    matching : List UsageLog
    matching = filter (matches f) db.usage_logs

    whole : pages n size f db ≡ newest_first f db
    whole =
        pages-eq-take n size f db
        ∙ take_all (n * size) (newest_first f db)
            (omega (arith, length-sort_by (λ (l : UsageLog). neg (pos l.id)) matching))

-- ===== src/Base/Sort.antt =====
-- Python's `sorted` by a key: a stable sort, with an integer key as the program's priorities.
use Prim.Native.Nat.{suc}
use mathlib.Core.Path.{ap, ◌≡◌, refl, ◌∙◌}
use mathlib.Core.Bool.{Bool, ◌&&◌}
use mathlib.Core.List.{List, [], ◌∷◌, Perm}
use mathlib.Core.List.Perm
use native.Mathlib.Omega.{arith}
use package.myown_llm_gateway.Base.Tests.{if◌then◌else◌, Bool-cases}
use package.myown_llm_gateway.Base.Lists.{length, filter, All}
use package.myown_llm_gateway.Base.Int.{ℤ, ◌≤ℤ◌, leb_ℤ}
use mathlib.Core.Logic.{inl, inr}

module _ {A : Type 0} (key : A → ℤ) where
  -- Before the first element with a key that is not smaller: equal keys keep their order.
  unfoldable pub insert_by : A → List A → List A
  insert_by x [] = x ∷ []
  insert_by x (y ∷ ys) = if leb_ℤ (key x) (key y) then x ∷ y ∷ ys else y ∷ insert_by x ys

  unfoldable pub sort_by : List A → List A
  unfolding insert_by
  sort_by [] = []
  sort_by (x ∷ xs) = insert_by x (sort_by xs)

  -- Every element is at most those behind it.
  abbrev pub IsSortedBy : List A → Type 0
  IsSortedBy [] = Unit
  IsSortedBy (x ∷ xs) = All (λ y. key x ≤ℤ key y) xs × IsSortedBy xs

  abbrev pub same_key : ℤ → A → Bool
  same_key k a = leb_ℤ (key a) k && leb_ℤ k (key a)

  All-le_trans :
      (x y : A) (ys : List A)
      → key x ≤ℤ key y
      → All (λ z. key y ≤ℤ key z) ys
      → All (λ z. key x ≤ℤ key z) ys
  All-le_trans x y [] h hs = tt
  All-le_trans x y (z ∷ zs) h hs = (omega arith, All-le_trans x y zs h hs.1)

  All-insert_by : (P : A → Type 0) (x : A) (ys : List A) → P x → All P ys → All P (insert_by x ys)
  unfolding insert_by
  All-insert_by P x [] hx h = (hx, tt)
  All-insert_by P x (y ∷ ys) hx h = elim (Bool-cases (leb_ℤ (key x) (key y))) [
    | inl e ↦ rw e (hx, h)
    | inr e ↦ rw e (h.0, All-insert_by P x ys hx h.1)
  ]

  insert_by-IsSortedBy : (x : A) (ys : List A) → IsSortedBy ys → IsSortedBy (insert_by x ys)
  unfolding insert_by
  insert_by-IsSortedBy x [] h = (tt, tt)
  insert_by-IsSortedBy x (y ∷ ys) h = elim (Bool-cases (leb_ℤ (key x) (key y))) [
    | inl e ↦ rw e let le : key x ≤ℤ key y = ground arith in ((le, All-le_trans x y ys le h.0), h)
    | inr e ↦
        rw e (
          All-insert_by (λ z. key y ≤ℤ key z) x ys (ground arith) h.0,
          insert_by-IsSortedBy x ys h.1,
        )
  ]

  pub sort_by-IsSortedBy : (xs : List A) → IsSortedBy (sort_by xs)
  unfolding sort_by
  sort_by-IsSortedBy [] = tt
  sort_by-IsSortedBy (x ∷ xs) = insert_by-IsSortedBy x (sort_by xs) (sort_by-IsSortedBy xs)

  insert_by-perm : (x : A) (ys : List A) → Perm (insert_by x ys) (x ∷ ys)
  unfolding insert_by
  insert_by-perm x [] = Perm.refl (x ∷ [])
  insert_by-perm x (y ∷ ys) = elim (Bool-cases (leb_ℤ (key x) (key y))) [
    | inl e ↦ rw e (Perm.refl (x ∷ y ∷ ys))
    | inr e ↦ rw e (Perm.trans (Perm.cons y (insert_by-perm x ys)) (Perm.swap x y ys))
  ]

  pub sort_by-perm : (xs : List A) → Perm (sort_by xs) xs
  unfolding sort_by
  sort_by-perm [] = Perm.refl []
  sort_by-perm (x ∷ xs) = Perm.trans (insert_by-perm x (sort_by xs)) (Perm.cons x (sort_by-perm xs))

  filter-insert_by :
      (k : ℤ) (x : A) (ys : List A)
      → filter (same_key k) (insert_by x ys) ≡ filter (same_key k) (x ∷ ys)
  unfolding insert_by
  filter-insert_by k x [] = refl
  filter-insert_by k x (y ∷ ys) = ground (arith, filter-insert_by k x ys)

  -- The elements of one key stand in their first order.
  pub sort_by_stable :
      (k : ℤ) (xs : List A) → filter (same_key k) (sort_by xs) ≡ filter (same_key k) xs
  unfolding sort_by
  sort_by_stable k [] = refl
  sort_by_stable k (x ∷ xs) =
      filter-insert_by k x (sort_by xs) ∙ ground (arith, sort_by_stable k xs)

  length-insert_by : (x : A) (ys : List A) → length (insert_by x ys) ≡ suc (length ys)
  unfolding insert_by
  length-insert_by x [] = refl
  length-insert_by x (y ∷ ys) = ground (arith, length-insert_by x ys)

  pub length-sort_by : (xs : List A) → length (sort_by xs) ≡ length xs
  unfolding sort_by
  length-sort_by [] = refl
  length-sort_by (x ∷ xs) = length-insert_by x (sort_by xs) ∙ ap suc (length-sort_by xs)

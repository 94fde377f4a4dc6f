-- ===== src/Base/Unicode.antt =====
-- A Python text holds code points, surrogates included; a `String` holds Unicode scalar values.
use Prim.Native.Nat.{ℕ, Ordering, compare}
use Prim.Native.Char.{char, IsLt, IsScalar}
use Prim.Native.String.{String}
use mathlib.Core.Path.{◌≡◌, refl, sym, ap, ◌∙◌}
use mathlib.Core.Bool.{Bool, true, ◌&&◌, ◌||◌}
use mathlib.Core.Option.{Option, none, some}
use mathlib.Core.List.{[], ◌∷◌}
use native.Mathlib.Omega.{arith}
use text.Mathlib.TextEquality.{Char-path}
use package.myown_llm_gateway.Base.Tests.{ltb}
use package.myown_llm_gateway.Base.Text.{Text, codes}

-- A Unicode scalar value: no surrogate.
abbrev pub is_scalar : ℕ → Bool
is_scalar c = ltb c 55296 || (ltb 57343 c && ltb c 1114112)

unfoldable pub is_unicode : Text → Bool
is_unicode [] = true
is_unicode (c ∷ s) = is_scalar c && is_unicode s

-- The clauses of `IsScalar`, over its three comparisons.
abbrev Between : Ordering → Ordering → Type 0
Between Ordering.lt o = IsLt o
Between Ordering.eq _ = ⊥
Between Ordering.gt _ = ⊥

abbrev Scalar : Ordering → Ordering → Ordering → Type 0
Scalar Ordering.lt _ _ = Unit
Scalar Ordering.eq o p = Between o p
Scalar Ordering.gt o p = Between o p

between? : (o p : Ordering) → Option (Between o p)
between? Ordering.lt Ordering.lt = some tt
between? Ordering.lt Ordering.eq = none
between? Ordering.lt Ordering.gt = none
between? Ordering.eq _ = none
between? Ordering.gt _ = none

scalar? : (o p q : Ordering) → Option (Scalar o p q)
unfolding between?
scalar? Ordering.lt p q = some tt
scalar? Ordering.eq p q = between? p q
scalar? Ordering.gt p q = between? p q

abbrev prepend : (c : ℕ) → Option (IsScalar c) → Option String → Option String
prepend c none rest = none
prepend c (some p) none = none
prepend c (some p) (some s) = some (String.◌∷◌ (char c p) s)

-- The text as a `String`, if it has no surrogate.
unfoldable pub decode : Text → Option String
unfolding scalar?
decode [] = some String.[]
decode (c ∷ s) =
    prepend c (scalar? (compare c 55296) (compare 57343 c) (compare c 1114112)) (decode s)

between?-complete : (o p : Ordering) → Between o p → (h : Between o p) × (between? o p ≡ some h)
unfolding between?
between?-complete Ordering.lt Ordering.lt h = (tt, refl)
between?-complete Ordering.lt Ordering.eq h = absurd h
between?-complete Ordering.lt Ordering.gt h = absurd h
between?-complete Ordering.eq p h = absurd h
between?-complete Ordering.gt p h = absurd h

scalar?-complete : (o p q : Ordering) → Scalar o p q → (h : Scalar o p q) × (scalar? o p q ≡ some h)
unfolding scalar?
scalar?-complete Ordering.lt p q h = (tt, refl)
scalar?-complete Ordering.eq p q h = between?-complete p q h
scalar?-complete Ordering.gt p q h = between?-complete p q h

pub decode-codes : (s : String) → decode (codes s) ≡ some s
unfolding decode
decode-codes String.[] = refl
decode-codes (String.◌∷◌ (char n p) s) =
    let (h, found) = scalar?-complete (compare n 55296) (compare 57343 n) (compare n 1114112) p in
    rw (found, decode-codes s)
      (ap (λ c. some (String.◌∷◌ c s)) (Char-path (char n h) (char n p) refl))

prepend-codes :
    (c : ℕ) (p : Option (IsScalar c)) (rest : Option String) (s : Text) (out : String)
    → ((t : String) → rest ≡ some t → codes t ≡ s)
    → prepend c p rest ≡ some out
    → codes out ≡ c ∷ s
prepend-codes c none rest s out ih h = cc
prepend-codes c (some p) none s out ih h = cc
prepend-codes c (some p) (some t) s out ih h =
    let e : String.◌∷◌ (char c p) t ≡ out = cc in ap codes (sym e) ∙ ap (λ r. c ∷ r) (ih t refl)

pub codes-decode : (s : Text) (out : String) → decode s ≡ some out → codes out ≡ s
unfolding decode
codes-decode [] out h = let e : String.[] ≡ out = cc in ap codes (sym e)
codes-decode (c ∷ s) out h =
    prepend-codes c (scalar? (compare c 55296) (compare 57343 c) (compare c 1114112)) (decode s) s
      out (λ t e. codes-decode s t e) h

scalar_number :
    (n : ℕ) → Scalar (compare n 55296) (compare 57343 n) (compare n 1114112) → is_scalar n ≡ true
scalar_number n p = ground arith

pub is_unicode-codes : (s : String) → is_unicode (codes s) ≡ true
unfolding is_unicode
is_unicode-codes String.[] = refl
is_unicode-codes (String.◌∷◌ (char n p) s) = rw (scalar_number n p, is_unicode-codes s)

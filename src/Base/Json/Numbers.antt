-- ===== src/Base/Json/Numbers.antt =====
-- What `json.loads` makes of an integer that `json.dumps` wrote.
use Prim.Native.Nat.{ℕ, zero, suc, ◌+◌, ◌/◌, ◌%◌, ◌<◌}
use mathlib.Core.Path.{◌≡◌, refl, sym, ap, ◌∙◌}
use mathlib.Core.Logic.{inl, inr}
use mathlib.Core.Bool.{Bool, true, false, ◌&&◌, ◌||◌}
use mathlib.Core.Option.{none, some}
use mathlib.Core.List.{[], ◌∷◌, ◌++◌}
use native.Mathlib.Omega.{arith}
use package.myown_llm_gateway.Base.Tests.{if◌then◌else◌, ◌==◌, ltb, Bool-cases}
use package.myown_llm_gateway.Base.Lists.{null as is_empty}
use package.myown_llm_gateway.Base.Int.{ℤ, pos, negsuc, neg}
use package.myown_llm_gateway.Base.Text.{Text, codes}
use package.myown_llm_gateway.Base.Json.{int}
use package.myown_llm_gateway.Base.Json.Writer.{digits_before, decimal, write_int}
use package.myown_llm_gateway.Base.Json.Tokens.{
  is_digit, span_digits, value_from, int_part, fraction_part, exponent_part, read_unsigned,
  read_number, expect,
}
use package.myown_llm_gateway.Base.Json.Reader.{starts}

unfoldable are_digits : Text → Bool
are_digits [] = true
are_digits (c ∷ s) = is_digit c && are_digits s

-- What may follow a value in a text that `json.dumps` wrote.
unfoldable pub ends_value : Text → Bool
ends_value [] = true
ends_value (c ∷ s) = c == b',' || (c == b']' || c == b'}')

span_digits-ends : (rest : Text) → ends_value rest ≡ true → span_digits rest ≡ ([], rest)
unfolding span_digits ends_value
span_digits-ends [] h = refl
span_digits-ends (c ∷ s) h = ground arith

span_digits-append :
    (ds rest : Text)
    → are_digits ds ≡ true
    → ends_value rest ≡ true
    → span_digits (ds ++ rest) ≡ (ds, rest)
unfolding are_digits span_digits
span_digits-append [] rest h k = span_digits-ends rest k
span_digits-append (d ∷ ds) rest h k = ground (arith, span_digits-append ds rest (ground arith) k)

fraction_part-ends : (rest : Text) → ends_value rest ≡ true → fraction_part rest ≡ ([], rest)
unfolding fraction_part ends_value
fraction_part-ends [] h = refl
fraction_part-ends (c ∷ s) h = ground arith

exponent_part-ends : (rest : Text) → ends_value rest ≡ true → exponent_part rest ≡ ([], rest)
unfolding exponent_part ends_value
exponent_part-ends [] h = refl
exponent_part-ends (c ∷ s) h = ground arith

digits_before-are_digits :
    (f n : ℕ) (out : Text) → are_digits out ≡ true → are_digits (digits_before f n out) ≡ true
unfolding digits_before are_digits
digits_before-are_digits zero n out h = h
digits_before-are_digits (suc f) n out h =
    ground (arith, digits_before-are_digits f (n / 10) ((b'0' + n % 10) ∷ out))

value_from-digits_before :
    (f n : ℕ) (out : Text) → n < f → value_from 0 (digits_before f n out) ≡ value_from n out
unfolding digits_before value_from
value_from-digits_before zero n out h = absurd (omega arith)
value_from-digits_before (suc f) n out h = elim (Bool-cases (ltb n 10)) [
  | inl small ↦ rw small (ap (λ (v : ℕ). value_from v out) (omega arith))
  | inr large ↦
      rw (large, value_from-digits_before f (n / 10) ((b'0' + n % 10) ∷ out) (ground arith))
        (ap (λ (v : ℕ). value_from v out) (omega arith))
]

-- The first digit is `0` only where the number is.
starts-digits_before :
    (f n : ℕ) (out : Text)
    → n < f
    → 0 < n
    → (starts b'0' (digits_before f n out) ≡ false) × (is_empty (digits_before f n out) ≡ false)
unfolding digits_before
starts-digits_before zero n out h k = absurd (omega arith)
starts-digits_before (suc f) n out h k =
    ground (arith, starts-digits_before f (n / 10) ((b'0' + n % 10) ∷ out))

int_part-digits :
    (ds rest : Text)
    → starts b'0' ds ≡ false
    → is_empty ds ≡ false
    → are_digits ds ≡ true
    → ends_value rest ≡ true
    → int_part (ds ++ rest) ≡ (ds, rest)
unfolding int_part
int_part-digits [] rest z e h k = cc
int_part-digits (d ∷ ds) rest z e h k = rw (z, span_digits-append (d ∷ ds) rest h k)

int_part-decimal :
    (n : ℕ) (rest : Text)
    → ends_value rest ≡ true
    → int_part (decimal n ++ rest) ≡ (decimal n, rest)
unfolding decimal
int_part-decimal zero rest h = unfold int_part in unfold digits_before in refl
int_part-decimal (suc n) rest h =
    let (z, e) = starts-digits_before (suc (suc n)) (suc n) [] (omega arith) (omega arith) in
    int_part-digits _ rest z e
      (digits_before-are_digits (suc (suc n)) (suc n) [] (unfold are_digits in refl)) h

decimal-ne-nil : (n : ℕ) → is_empty (decimal n) ≡ false
unfolding decimal digits_before
decimal-ne-nil zero = refl
decimal-ne-nil (suc n) =
    (starts-digits_before (suc (suc n)) (suc n) [] (omega arith) (omega arith)).1

value_from-decimal : (n : ℕ) → value_from 0 (decimal n) ≡ n
unfolding decimal
value_from-decimal n =
    value_from-digits_before (suc n) n [] (omega arith) ∙ unfold value_from in refl

abbrev signed : Bool → ℕ → ℤ
signed negative n = if negative then neg (pos n) else pos n

read_unsigned-decimal :
    (negative : Bool) (n : ℕ) (rest : Text)
    → ends_value rest ≡ true
    → read_unsigned negative (decimal n ++ rest) ≡ some (int (signed negative n), rest)
unfolding read_unsigned
read_unsigned-decimal negative n rest h = rw (
  int_part-decimal n rest h,
  fraction_part-ends rest h,
  exponent_part-ends rest h,
  decimal-ne-nil n,
  value_from-decimal n,
)

-- A number starts with a digit.
digit_head :
    (s : Text)
    → is_empty s ≡ false
    → are_digits s ≡ true
    → (c : ℕ) × (t : Text) × (s ≡ c ∷ t) × (is_digit c ≡ true)
unfolding are_digits
digit_head [] e h = cc
digit_head (c ∷ t) e h = (c, t, refl, ground arith)

decimal-are_digits : (n : ℕ) → are_digits (decimal n) ≡ true
unfolding decimal
decimal-are_digits n = digits_before-are_digits (suc n) n [] (unfold are_digits in refl)

-- A text that starts as a number does.
unfoldable pub numeric : Text → Bool
numeric [] = false
numeric (c ∷ s) = c == b'-' || is_digit c

pub write_int-numeric : (n : ℤ) (rest : Text) → numeric (write_int n ++ rest) ≡ true
unfolding write_int numeric
write_int-numeric (pos n) rest =
    let (c, t, e, h) = digit_head (decimal n) (decimal-ne-nil n) (decimal-are_digits n) in
    rw e (ground arith)
write_int-numeric (negsuc n) rest = refl

read_number-digit :
    (c : ℕ) (s : Text) → is_digit c ≡ true → read_number (c ∷ s) ≡ read_unsigned false (c ∷ s)
unfolding read_number
read_number-digit c s h = ground arith

expect-digit : (c : ℕ) (s : Text) → is_digit c ≡ true → expect (codes "Infinity") (c ∷ s) ≡ none
unfolding expect
expect-digit c s h = ground arith

read_number-minus :
    (c : ℕ) (s : Text) → is_digit c ≡ true → read_number (b'-' ∷ c ∷ s) ≡ read_unsigned true (c ∷ s)
unfolding read_number
read_number-minus c s h = rw (expect-digit c s h)

pub read-write_int :
    (n : ℤ) (rest : Text)
    → ends_value rest ≡ true
    → read_number (write_int n ++ rest) ≡ some (int n, rest)
unfolding write_int
read-write_int (pos n) rest k =
    let (c, t, e, h) = digit_head (decimal n) (decimal-ne-nil n) (decimal-are_digits n) in
    ap (λ (s : Text). read_number (s ++ rest)) e
    ∙ read_number-digit c (t ++ rest) h
    ∙ ap (λ (s : Text). read_unsigned false (s ++ rest)) (sym e)
    ∙ read_unsigned-decimal false n rest k
read-write_int (negsuc n) rest k =
    let (c, t, e, h) =
      digit_head (decimal (suc n)) (decimal-ne-nil (suc n)) (decimal-are_digits (suc n)) in
    ap (λ (s : Text). read_number (b'-' ∷ (s ++ rest))) e
    ∙ read_number-minus c (t ++ rest) h
    ∙ ap (λ (s : Text). read_unsigned true (s ++ rest)) (sym e)
    ∙ read_unsigned-decimal true (suc n) rest k
    ∙ ground arith

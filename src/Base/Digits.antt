-- ===== src/Base/Digits.antt =====
-- `int()` and `str.isdigit()` of Python on a text, by the tables of Unicode 14.
use Prim.Native.Nat.{ℕ, ◌+◌, ◌-◌, ◌*◌}
use mathlib.Core.Bool.{Bool, true, false, not, ◌&&◌, ◌||◌}
use mathlib.Core.Option.{Option, none, some}
use mathlib.Core.List.{List, [], ◌∷◌}
use package.myown_llm_gateway.Base.Tests.{if◌then◌else◌, ◌==◌, ltb, leb, is_none}
use package.myown_llm_gateway.Base.Lists.{length, filter, any, null}
use package.myown_llm_gateway.Base.Int.{ℤ, pos, neg}
use package.myown_llm_gateway.Base.Text.{Text, strip}

-- The zeros of the decimal digits, each before its nine others.
abbrev zeros : List ℕ
zeros =
    48 ∷ 1632 ∷ 1776 ∷ 1984 ∷ 2406 ∷ 2534 ∷ 2662 ∷ 2790 ∷ 2918 ∷ 3046 ∷ 3174 ∷ 3302 ∷ 3430 ∷ 3558
    ∷ 3664 ∷ 3792 ∷ 3872 ∷ 4160 ∷ 4240 ∷ 6112 ∷ 6160 ∷ 6470 ∷ 6608 ∷ 6784 ∷ 6800 ∷ 6992 ∷ 7088
    ∷ 7232 ∷ 7248 ∷ 42528 ∷ 43216 ∷ 43264 ∷ 43472 ∷ 43504 ∷ 43600 ∷ 44016 ∷ 65296 ∷ 66720 ∷ 68912
    ∷ 69734 ∷ 69872 ∷ 69942 ∷ 70096 ∷ 70384 ∷ 70736 ∷ 70864 ∷ 71248 ∷ 71360 ∷ 71472 ∷ 71904 ∷ 72016
    ∷ 72784 ∷ 73040 ∷ 73120 ∷ 92768 ∷ 92864 ∷ 93008 ∷ 120782 ∷ 120792 ∷ 120802 ∷ 120812 ∷ 120822
    ∷ 123200 ∷ 123632 ∷ 125264 ∷ 130032 ∷ []

-- The digits that are not decimal, such as superscripts.
abbrev other_digits : List (ℕ × ℕ)
other_digits =
    (178, 179)
    ∷ (185, 185)
    ∷ (4969, 4977)
    ∷ (6618, 6618)
    ∷ (8304, 8304)
    ∷ (8308, 8313)
    ∷ (8320, 8329)
    ∷ (9312, 9320)
    ∷ (9332, 9340)
    ∷ (9352, 9360)
    ∷ (9450, 9450)
    ∷ (9461, 9469)
    ∷ (9471, 9471)
    ∷ (10102, 10110)
    ∷ (10112, 10120)
    ∷ (10122, 10130)
    ∷ (68160, 68163)
    ∷ (69216, 69224)
    ∷ (69714, 69722)
    ∷ (127232, 127242)
    ∷ []

digit_above : ℕ → List ℕ → Option ℕ
digit_above c [] = none
digit_above c (z ∷ zs) =
    let rest = digit_above c zs in if leb z c && leb c (z + 9) then some (c - z) else rest

-- The value of a decimal digit.
unfoldable decimal_value : ℕ → Option ℕ
unfolding digit_above
decimal_value c = digit_above c zeros

-- `c.isdigit()`
unfoldable is_digit_char : ℕ → Bool
unfolding decimal_value
is_digit_char c = not (is_none (decimal_value c)) || any (λ r. leb r.0 c && leb c r.1) other_digits

-- `s.isdigit()`
unfoldable pub is_digits : Text → Bool
unfolding is_digit_char
is_digits s = not (null s) && not (any (λ c. not (is_digit_char c)) s)

-- Digits with single underscores between them, after a digit or not, from a value on.
read_digits : Bool → ℕ → Text → Option ℕ
unfolding decimal_value
read_digits after_digit n [] = if after_digit then some n else none
read_digits after_digit n (c ∷ s) =
    let skipped = read_digits false n s in
    let taken = λ (d : ℕ). read_digits true (n * 10 + d) s in
    if c == b'_'
    then (if after_digit then skipped else none)
    else elim (decimal_value c) [ none ↦ none | some d ↦ taken d ]

-- More than 4300 digits are a `ValueError` too.
read_limited : Text → Option ℕ
unfolding read_digits
read_limited s =
    if ltb 4300 (length (filter (λ c. not (c == b'_')) s)) then none else read_digits false 0 s

abbrev signed : Bool → Option ℕ → Option ℤ
signed negative none = none
signed negative (some n) = some (if negative then neg (pos n) else pos n)

read_signed : Text → Option ℤ
unfolding read_limited
read_signed [] = none
read_signed (c ∷ s) =
    if c == b'-'
    then signed true (read_limited s)
    else if c == b'+'
    then signed false (read_limited s)
    else signed false (read_limited (c ∷ s))

-- `int(s)`; `none` is its `ValueError`
unfoldable pub int_of_text : Text → Option ℤ
unfolding read_signed strip
int_of_text s = read_signed (strip s)

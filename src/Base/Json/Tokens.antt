-- ===== src/Base/Json/Tokens.antt =====
-- `json.loads`: its numbers, texts and words, and the white space between them.
use Prim.Native.Nat.{ℕ, zero, suc, ◌+◌, ◌-◌, ◌*◌}
use mathlib.Core.Bool.{Bool, true, false, ◌&&◌, ◌||◌}
use mathlib.Core.Option.{Option, none, some}
use mathlib.Core.List.{[], ◌∷◌, ◌++◌}
use package.myown_llm_gateway.Base.Tests.{if◌then◌else◌, ◌==◌, ltb, leb}
use package.myown_llm_gateway.Base.Lists.{null as is_empty}
use package.myown_llm_gateway.Base.Int.{pos, neg}
use package.myown_llm_gateway.Base.Text.{Text, codes}
use package.myown_llm_gateway.Base.Json.{Json, null, bool, int, float}

module _ {ℓ κ} {A : Type ℓ} {B : Type κ} where
  infixl 5 ◌>>=◌
  abbrev pub ◌>>=◌ : Option A → (A → Option B) → Option B
  o >>= next = elim o [ none ↦ none | some a ↦ next a ]

abbrev pub is_digit : ℕ → Bool
is_digit c = leb b'0' c && leb c b'9'

-- The digits in front, and the rest.
unfoldable pub span_digits : Text → Text × Text
span_digits [] = ([], [])
span_digits (c ∷ s) =
    let (ds, rest) = span_digits s in if is_digit c then (c ∷ ds, rest) else ([], c ∷ s)

-- `int(ds)` on digits, from a value on
unfoldable pub value_from : ℕ → Text → ℕ
value_from n [] = n
value_from n (d ∷ ds) = value_from (n * 10 + (d - b'0')) ds

-- `0|[1-9]\d*`: the digits that are matched, and the rest
unfoldable pub int_part : Text → Text × Text
unfolding span_digits
int_part [] = ([], [])
int_part (c ∷ s) = if c == b'0' then (c ∷ [], s) else span_digits (c ∷ s)

-- `(\.\d+)?`
unfoldable pub fraction_part : Text → Text × Text
unfolding span_digits
fraction_part [] = ([], [])
fraction_part (c ∷ s) =
    let (ds, rest) = span_digits s in
    if c == b'.' && (if is_empty ds then false else true) then (c ∷ ds, rest) else ([], c ∷ s)

abbrev sign_part : Text → Text × Text
sign_part [] = ([], [])
sign_part (c ∷ s) = if c == b'+' || c == b'-' then (c ∷ [], s) else ([], c ∷ s)

-- `([eE][-+]?\d+)?`
unfoldable pub exponent_part : Text → Text × Text
unfolding span_digits
exponent_part [] = ([], [])
exponent_part (c ∷ s) =
    let (sign, unsigned) = sign_part s in
    let (ds, rest) = span_digits unsigned in
    if (c == b'e' || c == b'E') && (if is_empty ds then false else true)
    then (c ∷ (sign ++ ds), rest)
    else ([], c ∷ s)

-- A number after its sign.
unfoldable pub read_unsigned : Bool → Text → Option (Json × Text)
unfolding int_part fraction_part exponent_part value_from
read_unsigned negative s =
    let (ds, after_int) = int_part s in
    let (fraction, after_fraction) = fraction_part after_int in
    let (exponent, rest) = exponent_part after_fraction in
    let n = pos (value_from 0 ds) in
    if is_empty ds
    then none
    else if is_empty fraction && is_empty exponent
    then some (int (if negative then neg n else n), after_int)
    else some (float ((if negative then b'-' ∷ [] else []) ++ (ds ++ (fraction ++ exponent))), rest)

-- The value of a hexadecimal digit.
unfoldable pub unhex : ℕ → Option ℕ
unhex c =
    if is_digit c
    then some (c - b'0')
    else if leb b'a' c && leb c b'f'
    then some (c - b'a' + 10)
    else if leb b'A' c && leb c b'F'
    then some (c - b'A' + 10)
    else none

-- The character that a backslash before `c` stands for.
unfoldable pub unescape : ℕ → Option ℕ
unescape c =
    if c == b'"' || (c == b'\\' || c == b'/')
    then some c
    else if c == b'n'
    then some 10
    else if c == b'r'
    then some 13
    else if c == b't'
    then some 9
    else if c == b'f'
    then some 12
    else if c == b'b'
    then some 8
    else none

-- Where in a string the scanner is: among characters, after a backslash, or before the last
-- digits of `\u`, of which one more than the number is to come.
pub data Mode : Type 0 where
  among escaped : Mode
  unit_after : ℕ → ℕ → Mode

abbrev is_high : ℕ → Bool
is_high u = leb 55296 u && leb u 56319

abbrev is_low : ℕ → Bool
is_low u = leb 56320 u && leb u 57343

-- A first surrogate that waits for the second one.
abbrev flush : Option ℕ → Text → Text
flush none s = s
flush (some u) s = u ∷ s

abbrev pub emit : Text → Option (Text × Text) → Option (Text × Text)
emit front none = none
emit front (some (s, rest)) = some (front ++ s, rest)

-- A complete unit of UTF-16 after `pending`: what is known of the text, and what waits.
unfoldable pub take_unit : Option ℕ → ℕ → Text × Option ℕ
take_unit none u = if is_high u then ([], some u) else (u ∷ [], none)
take_unit (some h) u =
    if is_low u
    then ((65536 + ((h - 55296) * 1024 + (u - 56320))) ∷ [], none)
    else if is_high u
    then (h ∷ [], some u)
    else (h ∷ u ∷ [], none)

-- The body of a string, its closing quote included, and the rest.
unfoldable pub read_chars : Mode → Option ℕ → Text → Option (Text × Text)
unfolding unhex unescape take_unit
read_chars mode pending [] = none
read_chars among pending (c ∷ s) =
    let after_backslash = read_chars escaped pending s in
    let more = emit (flush pending (c ∷ [])) (read_chars among none s) in
    if c == b'"'
    then some (flush pending [], s)
    else if c == b'\\'
    then after_backslash
    else if ltb c 32
    then none
    else more
read_chars escaped pending (c ∷ s) =
    let as_unit = read_chars (unit_after 3 0) pending s in
    let more = read_chars among none s in
    if c == b'u'
    then as_unit
    else elim (unescape c) [ none ↦ none | some d ↦ emit (flush pending (d ∷ [])) more ]
read_chars (unit_after zero u) pending (c ∷ s) =
    let after = λ (d : ℕ).
      let (known, waits) = take_unit pending (u * 16 + d) in
      emit known (read_chars among waits s) in
    elim (unhex c) [ none ↦ none | some d ↦ after d ]
read_chars (unit_after (suc k) u) pending (c ∷ s) =
    let after = λ (d : ℕ). read_chars (unit_after k (u * 16 + d)) pending s in
    elim (unhex c) [ none ↦ none | some d ↦ after d ]

-- `[ \t\n\r]*`
unfoldable pub skip : Text → Text
skip [] = []
skip (c ∷ s) =
    let rest = skip s in if c == b' ' || (c == 9 || (c == 10 || c == 13)) then rest else c ∷ s

-- The rest after a text that must be there.
unfoldable pub expect : Text → Text → Option Text
expect [] s = some s
expect (d ∷ p) [] = none
expect (d ∷ p) (c ∷ s) = if c == d then expect p s else none

abbrev after_word : Text → Json → Text → Option (Json × Text)
after_word word v s = elim (expect word s) [ none ↦ none | some rest ↦ some (v, rest) ]

-- `null`, `true`, `false`, and the floats that are no JSON.
unfoldable pub read_word : Text → Option (Json × Text)
unfolding expect
read_word [] = none
read_word (c ∷ s) =
    if c == b'n'
    then after_word (codes "ull") null s
    else if c == b't'
    then after_word (codes "rue") (bool true) s
    else if c == b'f'
    then after_word (codes "alse") (bool false) s
    else if c == b'N'
    then after_word (codes "aN") (float (codes "NaN")) s
    else if c == b'I'
    then after_word (codes "nfinity") (float (codes "Infinity")) s
    else none

-- A number, or `-Infinity`.
unfoldable pub read_number : Text → Option (Json × Text)
unfolding read_unsigned expect
read_number [] = none
read_number (c ∷ s) =
    if c == b'-'
    then elim (expect (codes "Infinity") s) [
      | some rest ↦ some (float (codes "-Infinity"), rest)
      | none ↦ read_unsigned true s
    ]
    else read_unsigned false (c ∷ s)

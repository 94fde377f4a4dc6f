-- ===== src/Base/Json/Strings.antt =====
-- What `json.loads` makes of a string that `json.dumps` wrote.
use Prim.Native.Nat.{ℕ, ◌+◌, ◌-◌, ◌*◌, ◌/◌, ◌%◌, ◌<◌}
use mathlib.Core.Path.{◌≡◌, refl, ap, ◌∙◌}
use mathlib.Core.Logic.{inl, inr}
use mathlib.Core.Bool.{true, false, ◌||◌}
use mathlib.Core.Option.{Option, none, some}
use mathlib.Core.List.{[], ◌∷◌, ◌++◌, append_assoc}
use native.Mathlib.Omega.{arith}
use package.myown_llm_gateway.Base.Tests.{◌==◌, ltb, leb, Bool-cases}
use package.myown_llm_gateway.Base.Text.{Text}
use package.myown_llm_gateway.Base.Unicode.{is_scalar, is_unicode}
use package.myown_llm_gateway.Base.Json.Writer.{
  hex_digit, write_unit, write_escaped, write_char, write_chars,
}
use package.myown_llm_gateway.Base.Json.Tokens.{among, unhex, unescape, emit, take_unit, read_chars}

unhex-hex_digit : (d : ℕ) → d < 16 → unhex (hex_digit d) ≡ some d
unfolding unhex hex_digit
unhex-hex_digit d h = ground arith

emit-nil : (o : Option (Text × Text)) → emit [] o ≡ o
emit-nil none = refl
emit-nil (some r) = refl

abbrev from_digits : ℕ → ℕ
from_digits u = (((0 * 16 + u / 4096) * 16 + u / 256 % 16) * 16 + u / 16 % 16) * 16 + u % 16

from_digits_lem : (u : ℕ) → from_digits u ≡ u
from_digits_lem u = omega arith

-- The four digits of a unit.
read_unit :
    (pending : Option ℕ) (u : ℕ) (t : Text)
    → u < 65536
    → read_chars among pending (write_unit u ++ t)
      ≡ emit (take_unit pending u).0 (read_chars among (take_unit pending u).1 t)
unfolding read_chars write_unit
read_unit pending u t h =
    rw
      (
        unhex-hex_digit (u / 4096) (omega arith),
        unhex-hex_digit (u / 256 % 16) (omega arith),
        unhex-hex_digit (u / 16 % 16) (omega arith),
        unhex-hex_digit (u % 16) (omega arith),
      )
      (ap (λ (v : ℕ). emit (take_unit pending v).0 (read_chars among (take_unit pending v).1 t))
        (from_digits_lem u))

take_unit_pair :
    (c : ℕ)
    → leb 65536 c ≡ true
    → ltb c 1114112 ≡ true
    → (take_unit none (55296 + (c - 65536) / 1024) ≡ ([], some (55296 + (c - 65536) / 1024)))
      × (take_unit (some (55296 + (c - 65536) / 1024)) (56320 + (c - 65536) % 1024)
          ≡ (c ∷ [], none))
unfolding take_unit
take_unit_pair c low high = ground arith

take_unit_one : (c : ℕ) → c < 65536 → is_scalar c ≡ true → take_unit none c ≡ (c ∷ [], none)
unfolding take_unit
take_unit_one c h k = ground arith

read_escaped :
    (c : ℕ) (t : Text)
    → is_scalar c ≡ true
    → read_chars among none (write_escaped c ++ t) ≡ emit (c ∷ []) (read_chars among none t)
unfolding write_escaped
read_escaped c t h = elim (Bool-cases (ltb c 65536)) [
  | inl small ↦ rw (small, read_unit none c t (ground arith), take_unit_one c (ground arith) h)
  | inr large ↦
      let pair = take_unit_pair c (ground arith) (ground arith) in
      rw (
        large,
        append_assoc (write_unit (55296 + (c - 65536) / 1024))
            (write_unit (56320 + (c - 65536) % 1024)) t,
        read_unit none (55296 + (c - 65536) / 1024) (write_unit (56320 + (c - 65536) % 1024) ++ t)
            (ground arith),
        pair.0,
        emit-nil,
        read_unit (some (55296 + (c - 65536) / 1024)) (56320 + (c - 65536) % 1024) t (ground arith),
        pair.1,
      )
]

read_plain :
    (c : ℕ) (t : Text)
    → (c == b'"') ≡ false
    → (c == b'\\') ≡ false
    → ltb c 32 ≡ false
    → read_chars among none (c ∷ t) ≡ emit (c ∷ []) (read_chars among none t)
unfolding read_chars
read_plain c t h k l = rw (h, k, l)

read_simple :
    (e d : ℕ) (t : Text)
    → (e == b'u') ≡ false
    → unescape e ≡ some d
    → read_chars among none (b'\\' ∷ e ∷ t) ≡ emit (d ∷ []) (read_chars among none t)
unfolding read_chars
read_simple e d t h k = rw (h, k)

unescape_self :
    (c : ℕ) → (c == b'"' || c == b'\\') ≡ true → (unescape c ≡ some c) × ((c == b'u') ≡ false)
unfolding unescape
unescape_self c h = ground arith

read_named :
    (e d c : ℕ) (t : Text)
    → (e == b'u') ≡ false
    → unescape e ≡ some d
    → (c == d) ≡ true
    → read_chars among none (b'\\' ∷ e ∷ t) ≡ emit (c ∷ []) (read_chars among none t)
read_named e d c t h k same =
    read_simple e d t h k ∙ ap (λ (v : ℕ). emit (v ∷ []) (read_chars among none t)) (ground arith)

-- One character of a string.
read_char :
    (c : ℕ) (t : Text)
    → is_scalar c ≡ true
    → read_chars among none (write_char c ++ t) ≡ emit (c ∷ []) (read_chars among none t)
unfolding write_char
read_char c t h = elim (Bool-cases (c == b'"' || c == b'\\')) [
  | inl q ↦ rw q (read_simple c c t (unescape_self c q).1 (unescape_self c q).0)
  | inr q ↦ elim (Bool-cases (c == 10)) [
    | inl n ↦ rw (q, n) (read_named b'n' 10 c t refl (unfold unescape in refl) n)
    | inr n ↦ elim (Bool-cases (c == 13)) [
      | inl r ↦ rw (q, n, r) (read_named b'r' 13 c t refl (unfold unescape in refl) r)
      | inr r ↦ elim (Bool-cases (c == 9)) [
        | inl b ↦ rw (q, n, r, b) (read_named b't' 9 c t refl (unfold unescape in refl) b)
        | inr b ↦ elim (Bool-cases (c == 12)) [
          | inl f ↦ rw (q, n, r, b, f) (read_named b'f' 12 c t refl (unfold unescape in refl) f)
          | inr f ↦ elim (Bool-cases (c == 8)) [
            | inl g ↦ rw (q, n, r, b, f, g) (read_named b'b' 8 c t refl (unfold unescape in refl) g)
            | inr g ↦ elim (Bool-cases (ltb c 32 || ltb 126 c)) [
              | inl e ↦ rw (q, n, r, b, f, g, e) (read_escaped c t h)
              | inr e ↦
                  rw (q, n, r, b, f, g, e)
                    (read_plain c t (ground arith) (ground arith) (ground arith))
            ]
          ]
        ]
      ]
    ]
  ]
]

pub read-write_chars :
    (s rest : Text)
    → is_unicode s ≡ true
    → read_chars among none (write_chars s ++ rest) ≡ some (s, rest)
unfolding is_unicode write_chars
read-write_chars [] rest h = unfold read_chars in refl
read-write_chars (c ∷ s) rest h = rw (
  append_assoc (write_char c) (write_chars s) rest,
  read_char c (write_chars s ++ rest) (ground arith),
  read-write_chars s rest (ground arith),
)

-- ===== src/Base/Json/Writer.antt =====
-- `json.dumps`, with its defaults: ASCII alone, and a space after each comma and colon.
use Prim.Native.Nat.{ℕ, zero, suc, ◌+◌, ◌-◌, ◌/◌, ◌%◌}
use mathlib.Core.Bool.{true, false, ◌||◌}
use mathlib.Core.List.{[], ◌∷◌, ◌++◌}
use package.myown_llm_gateway.Base.Tests.{if◌then◌else◌, ◌==◌, ltb}
use package.myown_llm_gateway.Base.Int.{ℤ, pos, negsuc}
use package.myown_llm_gateway.Base.Text.{Text, codes}
use package.myown_llm_gateway.Base.Json.{
  Json, null, bool, int, float, str, arr, obj, Items, nil, cons, Fields, end, field,
}

-- The digits of a number before `out`; the number is enough fuel.
unfoldable pub digits_before : ℕ → ℕ → Text → Text
digits_before zero n out = out
digits_before (suc fuel) n out =
    let more = digits_before fuel (n / 10) ((b'0' + n % 10) ∷ out) in
    if ltb n 10 then (b'0' + n) ∷ out else more

-- `str(n)`
unfoldable pub decimal : ℕ → Text
unfolding digits_before
decimal n = digits_before (suc n) n []

unfoldable pub write_int : ℤ → Text
unfolding decimal
write_int (pos n) = decimal n
write_int (negsuc n) = b'-' ∷ decimal (suc n)

unfoldable pub hex_digit : ℕ → ℕ
hex_digit d = if ltb d 10 then b'0' + d else b'a' + (d - 10)

-- `'\\u{0:04x}'.format(u)`
unfoldable pub write_unit : ℕ → Text
unfolding hex_digit
write_unit u =
    b'\\'
    ∷ b'u'
    ∷ hex_digit (u / 4096)
    ∷ hex_digit (u / 256 % 16)
    ∷ hex_digit (u / 16 % 16)
    ∷ hex_digit (u % 16)
    ∷ []

-- A character that is not written as itself: in one unit of UTF-16, or in two.
unfoldable pub write_escaped : ℕ → Text
unfolding write_unit
write_escaped c =
    if ltb c 65536
    then write_unit c
    else write_unit (55296 + (c - 65536) / 1024) ++ write_unit (56320 + (c - 65536) % 1024)

unfoldable pub write_char : ℕ → Text
unfolding write_escaped
write_char c =
    if c == b'"' || c == b'\\'
    then b'\\' ∷ c ∷ []
    else if c == 10
    then b'\\' ∷ b'n' ∷ []
    else if c == 13
    then b'\\' ∷ b'r' ∷ []
    else if c == 9
    then b'\\' ∷ b't' ∷ []
    else if c == 12
    then b'\\' ∷ b'f' ∷ []
    else if c == 8
    then b'\\' ∷ b'b' ∷ []
    else if ltb c 32 || ltb 126 c
    then write_escaped c
    else c ∷ []

-- The characters and the closing quote.
unfoldable pub write_chars : Text → Text
unfolding write_char
write_chars [] = b'"' ∷ []
write_chars (c ∷ s) = write_char c ++ write_chars s

unfoldable mutual
  unfolding write_int write_chars

  pub write_value : Json → Text
  write_value null = codes "null"
  write_value (bool true) = codes "true"
  write_value (bool false) = codes "false"
  write_value (int n) = write_int n
  write_value (float s) = s
  write_value (str s) = b'"' ∷ write_chars s
  write_value (arr nil) = b'[' ∷ b']' ∷ []
  write_value (arr (cons x xs)) = b'[' ∷ (write_value x ++ write_items xs)
  write_value (obj end) = b'{' ∷ b'}' ∷ []
  write_value (obj (field k v fs)) =
      b'{' ∷ b'"' ∷ (write_chars k ++ b':' ∷ b' ' ∷ (write_value v ++ write_fields fs))

  pub write_items : Items → Text
  write_items nil = b']' ∷ []
  write_items (cons x xs) = b',' ∷ b' ' ∷ (write_value x ++ write_items xs)

  pub write_fields : Fields → Text
  write_fields end = b'}' ∷ []
  write_fields (field k v fs) =
      b',' ∷ b' ' ∷ b'"' ∷ (write_chars k ++ b':' ∷ b' ' ∷ (write_value v ++ write_fields fs))

-- `json.dumps(v)`
unfoldable pub dumps : Json → Text
unfolding write_value
dumps = write_value

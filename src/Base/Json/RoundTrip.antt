-- ===== src/Base/Json/RoundTrip.antt =====
-- What `json.loads` makes of a value that `json.dumps` wrote.
use Prim.Native.Nat.{ℕ, zero, suc, ◌+◌, ◌≤◌, ◌<◌}
use mathlib.Core.Path.{◌≡◌, refl, ◌∙◌}
use mathlib.Core.Bool.{Bool, true, false, ◌&&◌, ◌||◌}
use mathlib.Core.Option.{some}
use mathlib.Core.List.{[], ◌∷◌, ◌++◌, append_assoc, append-nil}
use native.Mathlib.Omega.{arith}
use package.myown_llm_gateway.Base.Tests.{◌==◌}
use package.myown_llm_gateway.Base.Lists.{length, length-append}
use package.myown_llm_gateway.Base.Text.{Text}
use package.myown_llm_gateway.Base.Json.{
  Json, null, bool, int, float, str, arr, obj, Items, nil, cons, Fields, end, field,
}
use package.myown_llm_gateway.Base.Json.Writer.{
  write_int, write_chars, write_value, write_items, write_fields, dumps,
}
use package.myown_llm_gateway.Base.Json.Tokens.{skip, read_number}
use package.myown_llm_gateway.Base.Json.Reader.{
  starts, read_key, read_value, read_items, read_fields, loads,
}
use package.myown_llm_gateway.Base.Unicode.{is_unicode}
use package.myown_llm_gateway.Base.Json.Strings.{read-write_chars}
use package.myown_llm_gateway.Base.Json.Numbers.{
  ends_value, numeric, write_int-numeric, read-write_int,
}

-- A value of Unicode texts and integers.
unfoldable mutual
  unfolding is_unicode

  pub printable : Json → Bool
  printable (float s) = false
  printable (str s) = is_unicode s
  printable (arr xs) = printable_items xs
  printable (obj fs) = printable_fields fs
  printable null = true
  printable (bool b) = true
  printable (int n) = true

  printable_items : Items → Bool
  printable_items nil = true
  printable_items (cons x xs) = printable x && printable_items xs

  printable_fields : Fields → Bool
  printable_fields end = true
  printable_fields (field k v fs) = is_unicode k && (printable v && printable_fields fs)

-- A text that starts a value.
unfoldable opens : Text → Bool
opens [] = false
opens (c ∷ s) =
    c == b'"'
    || (c == b'[' || (c == b'{' || (c == b'n' || (c == b't' || (c == b'f' || numeric (c ∷ s))))))

opens_lem : (s : Text) → opens s ≡ true → (skip s ≡ s) × (starts b']' s ≡ false)
unfolding opens skip numeric
opens_lem [] h = cc
opens_lem (c ∷ s) h = ground arith

numeric-opens : (s : Text) → numeric s ≡ true → opens s ≡ true
unfolding opens numeric
numeric-opens [] h = cc
numeric-opens (c ∷ s) h = ground arith

write_value-opens :
    (v : Json) (rest : Text) → printable v ≡ true → opens (write_value v ++ rest) ≡ true
unfolding printable write_value opens
write_value-opens null rest h = refl
write_value-opens (bool true) rest h = refl
write_value-opens (bool false) rest h = refl
write_value-opens (int n) rest h = numeric-opens (write_int n ++ rest) (write_int-numeric n rest)
write_value-opens (float s) rest h = cc
write_value-opens (str s) rest h = refl
write_value-opens (arr nil) rest h = refl
write_value-opens (arr (cons x xs)) rest h = refl
write_value-opens (obj end) rest h = refl
write_value-opens (obj (field k v fs)) rest h = refl

write_items-ends :
    (xs : Items) (rest : Text)
    → (ends_value (write_items xs ++ rest) ≡ true)
      × (skip (write_items xs ++ rest) ≡ write_items xs ++ rest)
unfolding write_items ends_value skip
write_items-ends nil rest = (refl, refl)
write_items-ends (cons x xs) rest = (refl, refl)

write_fields-ends :
    (fs : Fields) (rest : Text)
    → (ends_value (write_fields fs ++ rest) ≡ true)
      × (skip (write_fields fs ++ rest) ≡ write_fields fs ++ rest)
unfolding write_fields ends_value skip
write_fields-ends end rest = (refl, refl)
write_fields-ends (field k v fs) rest = (refl, refl)

read_value-numeric : (f : ℕ) (s : Text) → numeric s ≡ true → read_value (suc f) s ≡ read_number s
unfolding read_value numeric
read_value-numeric f [] h = cc
read_value-numeric f (c ∷ s) h =
    let a : (c == b'"') ≡ false = ground arith in
    let b : (c == b'[') ≡ false = ground arith in
    let d : (c == b'{') ≡ false = ground arith in rw (a, b, d, h)

read_key-write_chars :
    (k rest : Text)
    → is_unicode k ≡ true
    → read_key (b'"' ∷ (write_chars k ++ b':' ∷ b' ' ∷ rest)) ≡ some (k, skip rest)
unfolding read_key
read_key-write_chars k rest h = rw (read-write_chars k (b':' ∷ b' ' ∷ rest) h) (unfold skip in refl)

abbrev ReadsValue : Json → Type 0
ReadsValue v =
    (rest : Text) (f : ℕ)
    → length (write_value v) ≤ f
    → printable v ≡ true
    → ends_value rest ≡ true
    → read_value f (write_value v ++ rest) ≡ some (v, rest)

abbrev ReadsItems : Items → Type 0
ReadsItems xs =
    (rest : Text) (f : ℕ)
    → length (write_items xs) ≤ f
    → printable_items xs ≡ true
    → read_items f (write_items xs ++ rest) ≡ some (xs, rest)

abbrev ReadsFields : Fields → Type 0
ReadsFields fs =
    (rest : Text) (f : ℕ)
    → length (write_fields fs) ≤ f
    → printable_fields fs ≡ true
    → read_fields f (write_fields fs ++ rest) ≡ some (fs, rest)

opens_pos : (s : Text) → opens (s ++ []) ≡ true → 0 < length s
unfolding opens
opens_pos [] h = cc
opens_pos (c ∷ s) h = omega arith

write_value_pos : (v : Json) → printable v ≡ true → 0 < length (write_value v)
write_value_pos v h = opens_pos (write_value v) (write_value-opens v [] h)

write_items_pos : (xs : Items) → 0 < length (write_items xs)
unfolding write_items
write_items_pos nil = omega arith
write_items_pos (cons x xs) = omega arith

write_fields_pos : (fs : Fields) → 0 < length (write_fields fs)
unfolding write_fields
write_fields_pos end = omega arith
write_fields_pos (field k v fs) = omega arith

length-text : (s t : Text) → length (s ++ t) ≡ length s + length t
length-text = length-append

ruleset lengths = (arith, length-text)

-- The readers with the part that is read first put in; the rest is for the calls on the parts.
module _ (v : Json) (rest : Text) (p : printable v ≡ true) where
  skip-value : skip (write_value v ++ rest) ≡ write_value v ++ rest
  skip-value = (opens_lem (write_value v ++ rest) (write_value-opens v rest p)).0

  not_closed : starts b']' (write_value v ++ rest) ≡ false
  not_closed = (opens_lem (write_value v ++ rest) (write_value-opens v rest p)).1

-- A member after its opening quote.
read_member :
    (k : Text) (v : Json) (fs : Fields) (rest : Text)
    → is_unicode k ≡ true
    → printable v ≡ true
    → read_key
        (b'"' ∷ ((write_chars k ++ b':' ∷ b' ' ∷ (write_value v ++ write_fields fs)) ++ rest))
      ≡ some (k, write_value v ++ (write_fields fs ++ rest))
read_member k v fs rest h p = rw (
  append_assoc (write_chars k) (b':' ∷ b' ' ∷ (write_value v ++ write_fields fs)) rest,
  append_assoc (write_value v) (write_fields fs) rest,
  read_key-write_chars k (write_value v ++ (write_fields fs ++ rest)) h,
  skip-value v (write_fields fs ++ rest) p,
)

mutual
  unfolding write_value printable read_value

  read_value-ReadsValue : (v : Json) → ReadsValue v
  read_value-ReadsValue v rest zero b p k = absurd (omega (arith, write_value_pos v p))
  read_value-ReadsValue null rest (suc f) b p k = refl
  read_value-ReadsValue (bool true) rest (suc f) b p k = refl
  read_value-ReadsValue (bool false) rest (suc f) b p k = refl
  read_value-ReadsValue (int n) rest (suc f) b p k =
      read_value-numeric f (write_int n ++ rest) (write_int-numeric n rest)
      ∙ read-write_int n rest k
  read_value-ReadsValue (float s) rest (suc f) b p k = cc
  read_value-ReadsValue (str s) rest (suc f) b p k = rw (read-write_chars s rest p)
  read_value-ReadsValue (arr nil) rest (suc f) b p k = refl
  read_value-ReadsValue (arr (cons x xs)) rest (suc f) b p k =
      let px : printable x ≡ true = ground arith in
      let ends = write_items-ends xs rest in
      rw (
        append_assoc (write_value x) (write_items xs) rest,
        skip-value x (write_items xs ++ rest) px,
        not_closed x (write_items xs ++ rest) px,
        read_value-ReadsValue x (write_items xs ++ rest) f (omega lengths) px ends.0,
        ends.1,
        read_items-ReadsItems xs rest f (omega lengths) (ground arith),
      )
  read_value-ReadsValue (obj end) rest (suc f) b p k = refl
  read_value-ReadsValue (obj (field j v fs)) rest (suc f) b p k =
      let pv : printable v ≡ true = ground arith in
      let ends = write_fields-ends fs rest in
      rw (
        read_member j v fs rest (ground arith) pv,
        read_value-ReadsValue v (write_fields fs ++ rest) f (omega lengths) pv ends.0,
        ends.1,
        read_fields-ReadsFields fs rest f (omega lengths) (ground arith),
      )

  read_items-ReadsItems : (xs : Items) → ReadsItems xs
  read_items-ReadsItems nil rest (suc f) b p = refl
  read_items-ReadsItems (cons x xs) rest (suc f) b p =
      let px : printable x ≡ true = ground arith in
      let ends = write_items-ends xs rest in
      rw (
        append_assoc (write_value x) (write_items xs) rest,
        skip-value x (write_items xs ++ rest) px,
        read_value-ReadsValue x (write_items xs ++ rest) f (omega lengths) px ends.0,
        ends.1,
        read_items-ReadsItems xs rest f (omega lengths) (ground arith),
      )
  read_items-ReadsItems xs rest zero b p = absurd (omega (arith, write_items_pos xs))

  read_fields-ReadsFields : (fs : Fields) → ReadsFields fs
  read_fields-ReadsFields end rest (suc f) b p = refl
  read_fields-ReadsFields (field j v fs) rest (suc f) b p =
      let pv : printable v ≡ true = ground arith in
      let ends = write_fields-ends fs rest in
      rw (
        read_member j v fs rest (ground arith) pv,
        read_value-ReadsValue v (write_fields fs ++ rest) f (omega lengths) pv ends.0,
        ends.1,
        read_fields-ReadsFields fs rest f (omega lengths) (ground arith),
      )
  read_fields-ReadsFields xs rest zero b p = absurd (omega (arith, write_fields_pos xs))

-- What was written reads back.
pub loads-dumps : (v : Json) → printable v ≡ true → loads (dumps v) ≡ some v
unfolding loads dumps
loads-dumps v p =
    let read =
      read_value-ReadsValue v [] (suc (length (write_value v))) (omega arith) p
        (unfold ends_value in refl) in
    let skipped = skip-value v [] p in
    rw ((rw append-nil at skipped), (rw append-nil at read)) (unfold skip in refl)

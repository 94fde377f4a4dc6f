-- ===== src/Base/Json/Reader.antt =====
-- `json.loads`: the scanner of Python's `json` module. `none` is its `ValueError`; the limits on
-- the depth of a value and on the digits of a number are left out.
use Prim.Native.Nat.{ℕ, zero, suc}
use mathlib.Core.Bool.{Bool, false, ◌||◌}
use mathlib.Core.Option.{Option, none, some}
use mathlib.Core.List.{[], ◌∷◌}
use package.myown_llm_gateway.Base.Tests.{if◌then◌else◌, ◌==◌}
use package.myown_llm_gateway.Base.Lists.{length, null as is_empty}
use package.myown_llm_gateway.Base.Text.{Text}
use package.myown_llm_gateway.Base.Json.{Json, str, arr, obj, Items, nil, cons, Fields, end, field}
use package.myown_llm_gateway.Base.Json.Tokens.{
  ◌>>=◌, among, is_digit, read_chars, skip, expect, read_word, read_number,
}

-- Does the text start with the character?
abbrev pub starts : ℕ → Text → Bool
starts c [] = false
starts c (d ∷ s) = d == c

abbrev pub tail : Text → Text
tail [] = []
tail (c ∷ s) = s

-- The key of a member, its colon included.
unfoldable pub read_key : Text → Option (Text × Text)
unfolding read_chars skip expect
read_key s = do
  opened ← expect (b'"' ∷ []) s
  (k, rest) ← read_chars among none opened
  after ← expect (b':' ∷ []) (skip rest)
  some (k, skip after)

-- `scan_once`, the loop of `JSONArray` and that of `JSONObject`, each behind its white space. The
-- loops stand after a value, and each call costs a unit of fuel.
unfoldable mutual
  unfolding read_chars skip expect read_key read_word read_number

  pub read_value : ℕ → Text → Option (Json × Text)
  read_value zero s = none
  read_value (suc f) [] = none
  read_value (suc f) (c ∷ s) =
      let text = do (t, rest) ← read_chars among none s; some (str t, rest)
      in let array = do
        (x, rest) ← read_value f (skip s)
        (xs, rest') ← read_items f (skip rest)
        some (arr (cons x xs), rest')
        in let object = do
          (k, at_value) ← read_key (skip s)
          (v, rest) ← read_value f at_value
          (fs, rest') ← read_fields f (skip rest)
          some (obj (field k v fs), rest')
          in if c == b'"'
            then text
            else if c == b'['
            then (if starts b']' (skip s) then some (arr nil, tail (skip s)) else array)
            else if c == b'{'
            then (if starts b'}' (skip s) then some (obj end, tail (skip s)) else object)
            else if c == b'-' || is_digit c
            then read_number (c ∷ s)
            else read_word (c ∷ s)

  pub read_items : ℕ → Text → Option (Items × Text)
  read_items zero s = none
  read_items (suc f) s =
      let more = do
        after ← expect (b',' ∷ []) s
        (x, rest) ← read_value f (skip after)
        (xs, rest') ← read_items f (skip rest)
        some (cons x xs, rest')
      in if starts b']' s then some (nil, tail s) else more

  pub read_fields : ℕ → Text → Option (Fields × Text)
  read_fields zero s = none
  read_fields (suc f) s =
      let more = do
        after ← expect (b',' ∷ []) s
        (k, at_value) ← read_key (skip after)
        (v, rest) ← read_value f at_value
        (fs, rest') ← read_fields f (skip rest)
        some (field k v fs, rest')
      in if starts b'}' s then some (end, tail s) else more

abbrev finish : Json × Text → Option Json
finish (v, rest) = if is_empty (skip rest) then some v else none

-- `json.loads(s)`; a call takes no more fuel than the text is long.
unfoldable pub loads : Text → Option Json
unfolding skip read_value
loads s = do read ← read_value (suc (length s)) (skip s); finish read

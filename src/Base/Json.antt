-- ===== src/Base/Json.antt =====
-- JSON, as Python's `json` module reads and writes it, with the reads that the program makes of
-- a parsed value. A number with a fraction or an exponent is a float, which is kept as its text.
mod Tokens
pub mod Reader
pub mod Writer
mod Numbers
pub mod RoundTrip
mod Strings
use package.myown_llm_gateway.Base.Tests.{if◌then◌else◌, ◌==◌}
use package.myown_llm_gateway.Base.Int.{ℤ, pos}
use package.myown_llm_gateway.Base.Text.{Text, codes, text_eq}
use Prim.Native.Nat.{zero}
use Prim.Native.String.{String}
use mathlib.Core.Bool.{Bool, true, false}
use mathlib.Core.Option.{Option, none, some}
use mathlib.Core.List.{[], ◌∷◌}

mutual
  pub data Json : Type 0 where
    null : Json
    bool : Bool → Json
    int : ℤ → Json
    float : Text → Json
    str : Text → Json
    arr : Items → Json
    obj : Fields → Json

  pub data Items : Type 0 where
    nil : Items
    cons : Json → Items → Items

  -- The members in the order of the text; of two with one key, a dict has the later value.
  pub data Fields : Type 0 where
    end : Fields
    field : Text → Json → Fields → Fields

-- The value of a key that is there.
abbrev pub find_field : Text → Fields → Option Json
find_field k end = none
find_field k (field j v fs) = elim (find_field k fs) [
  | some later ↦ some later
  | none ↦ if text_eq k j then some v else none
]

abbrev or_null : Option Json → Json
or_null none = null
or_null (some v) = v

-- `d.get(k)` on a dict; an absent key reads as `None`
abbrev pub get_field : String → Fields → Json
get_field k fs = or_null (find_field (codes k) fs)

-- Is the float zero? Its digits before an exponent are then all zeros.
abbrev is_zero_float : Text → Bool
is_zero_float [] = true
is_zero_float (c ∷ s) =
    let rest = is_zero_float s in
    if c == b'-'
    then rest
    else if c == b'0'
    then rest
    else if c == b'.'
    then rest
    else if c == b'e'
    then true
    else c == b'E'

-- `bool(v)`
abbrev pub truthy : Json → Bool
truthy null = false
truthy (bool b) = b
truthy (int (pos zero)) = false
truthy (int _) = true
truthy (float s) = if is_zero_float s then false else true
truthy (str []) = false
truthy (str (c ∷ s)) = true
truthy (arr nil) = false
truthy (arr (cons x xs)) = true
truthy (obj end) = false
truthy (obj (field k v fs)) = true

-- `v or w`
abbrev pub or_else : Json → Json → Json
or_else v w = if truthy v then v else w

-- `isinstance(v, dict)`
abbrev pub dict_of : Json → Option Fields
dict_of (obj fs) = some fs
dict_of null = none
dict_of (bool _) = none
dict_of (int _) = none
dict_of (float _) = none
dict_of (str _) = none
dict_of (arr _) = none

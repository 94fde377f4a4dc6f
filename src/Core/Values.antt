-- ===== src/Core/Values.antt =====
-- Values that `json.loads` gave, as the program reads them: an operation that the value's class
-- does not have raises. A `ValidationError` of pydantic is a `ValueError`.
use myown_llm_gateway.Base.{String, Bool, true, false, Option, none, some, [], ◌∷◌}
use myown_llm_gateway.Base.Int.{ℤ, pos}
use myown_llm_gateway.Base.Text.{codes}
use myown_llm_gateway.Base.Unicode.{decode}
use myown_llm_gateway.Base.Json.{
  Json, null, bool, int, float, str, arr, obj, nil, cons, find_field, get_field,
}
use myown_llm_gateway.Core.Exceptions.{
  Result, ok, raise, value_error, type_error, attribute_error, key_error, index_error,
}

-- `v.get(k)`
abbrev pub get_of : String → Json → Result Json
get_of k (obj fs) = ok (get_field k fs)
get_of k null = raise attribute_error
get_of k (bool _) = raise attribute_error
get_of k (int _) = raise attribute_error
get_of k (float _) = raise attribute_error
get_of k (str _) = raise attribute_error
get_of k (arr _) = raise attribute_error

-- `v.get(k, default)`
abbrev pub get_or_of : String → Json → Json → Result Json
get_or_of k default (obj fs) = elim (find_field (codes k) fs) [ none ↦ ok default | some v ↦ ok v ]
get_or_of k default null = raise attribute_error
get_or_of k default (bool _) = raise attribute_error
get_or_of k default (int _) = raise attribute_error
get_or_of k default (float _) = raise attribute_error
get_or_of k default (str _) = raise attribute_error
get_or_of k default (arr _) = raise attribute_error

-- `v[k]`
abbrev pub item_of : String → Json → Result Json
item_of k (obj fs) = elim (find_field (codes k) fs) [ none ↦ raise key_error | some v ↦ ok v ]
item_of k null = raise type_error
item_of k (bool _) = raise type_error
item_of k (int _) = raise type_error
item_of k (float _) = raise type_error
item_of k (str _) = raise type_error
item_of k (arr _) = raise type_error

-- `v[0]`
abbrev pub first_of : Json → Result Json
first_of (arr (cons v vs)) = ok v
first_of (arr nil) = raise index_error
first_of (str (c ∷ s)) = ok (str (c ∷ []))
first_of (str []) = raise index_error
first_of (obj _) = raise key_error
first_of null = raise type_error
first_of (bool _) = raise type_error
first_of (int _) = raise type_error
first_of (float _) = raise type_error

abbrev pub bool_int : Bool → ℤ
bool_int true = pos 1
bool_int false = pos 0

abbrev pub or_raise {ℓ} : {A : Type ℓ} → Option A → Result A
or_raise none = raise value_error
or_raise (some a) = ok a

-- pydantic's `str`: no other class, and no surrogate
abbrev pub string_of : Json → Result String
string_of (str s) = or_raise (decode s)
string_of null = raise value_error
string_of (bool _) = raise value_error
string_of (int _) = raise value_error
string_of (float _) = raise value_error
string_of (arr _) = raise value_error
string_of (obj _) = raise value_error

-- ===== src/Models/Api/Validation.antt =====
-- The constraints of models/api.py on a request body: the field bounds and the validators.
use Prim.Native.String.{count}
use myown_llm_gateway.Base.{
  ℕ, String, Bool, true, false, not, ◌&&◌, ◌||◌, Option, none, some, List, [], ◌∷◌, length, any,
  null, leb, ltb, str_eq, if◌then◌else◌, is_none,
}
use myown_llm_gateway.Base.Int.{ℤ, pos, negsuc, leb_ℤ}
use myown_llm_gateway.Base.Text.{codes, text_eq}
use myown_llm_gateway.Base.Json.{Json, Fields, get_field, dict_of}
use myown_llm_gateway.Core.Exceptions.{Result, ok, raise, type_error, ◌>>=◌}
use myown_llm_gateway.Models.Api.{ChatMessage, ChatRequest, Role, Stop, one, many}

-- `Field(ge=lo, le=hi)` on a field that may be `None`
abbrev within : ℤ → ℤ → Option ℤ → Bool
within lo hi none = true
within lo hi (some v) = leb_ℤ lo v && leb_ℤ v hi

valid_message : ChatMessage → Bool
valid_message m = leb (count m.content) 50000

valid_messages : List ChatMessage → Bool
unfolding valid_message
valid_messages ms =
    leb 1 (length ms) && leb (length ms) 100 && not (any (λ m. not (valid_message m)) ms)

abbrev valid_top_p : Option ℕ → Bool
valid_top_p none = true
valid_top_p (some p) = ltb 0 p && leb p 100

abbrev valid_max_tokens : Option ℕ → Bool
valid_max_tokens none = true
valid_max_tokens (some n) = ltb 0 n

abbrev valid_user : Option String → Bool
valid_user none = true
valid_user (some u) = leb (count u) 255

-- `_valid_response_format`. Its `kind not in _RESPONSE_FORMAT_TYPES` hashes `kind`, and a list or
-- a dict has no hash.
check_kind : Json → Fields → Result Bool
unfolding text_eq
check_kind (Json.str kind) value = ok (
    if text_eq kind (codes "text") || text_eq kind (codes "json_object")
    then true
    else if text_eq kind (codes "json_schema")
    then not (is_none (dict_of (get_field "json_schema" value)))
    else false)
check_kind (Json.arr _) value = raise type_error
check_kind (Json.obj _) value = raise type_error
check_kind _ value = ok false

unfoldable valid_response_format : Option Fields → Result Bool
unfolding check_kind
valid_response_format none = ok true
valid_response_format (some value) = check_kind (get_field "type" value) value

sequences : Stop → List String
sequences (one s) = s ∷ []
sequences (many ss) = ss

-- `_stop_within_bounds`
stop_within_bounds : Option Stop → Bool
unfolding sequences
stop_within_bounds none = true
stop_within_bounds (some value) =
    let ss = sequences value in
    if null ss || any (λ s. str_eq s "") ss then false else not (ltb 4 (length ss))

abbrev is_user : Role → Bool
is_user Role.user = true
is_user Role.system = false
is_user Role.assistant = false

-- `_require_user_message`
require_user_message : List ChatMessage → Bool
require_user_message = any (λ m. is_user m.role)

-- A body of the right shape is accepted if every field and the whole pass. An exception other
-- than `ValueError` leaves the validation at once.
unfoldable accepts : ChatRequest → Result Bool
unfolding valid_messages valid_response_format stop_within_bounds require_user_message
accepts r = do
  format_ok ← valid_response_format r.response_format
  ok (
      valid_messages r.messages
      && leb r.temperature 200
      && valid_top_p r.top_p
      && within (negsuc 199) (pos 200) r.frequency_penalty
      && within (negsuc 199) (pos 200) r.presence_penalty
      && valid_max_tokens r.max_tokens
      && stop_within_bounds r.stop
      && valid_user r.user
      && format_ok
      && require_user_message r.messages)

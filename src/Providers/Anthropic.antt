-- ===== src/Providers/Anthropic.antt =====
-- src/llm_gateway/providers/anthropic.py: the payload, and the translation of the answer. What
-- Python and pydantic make of a number that is no int is the record `Coercions`.
pub mod Events
pub mod Wire
pub mod Parts
pub mod Agreement
pub mod Closed
use Prim.Native.String.{◌++◌}
use myown_llm_gateway.Base.{
  ℕ, zero, suc, String, Bool, true, false, Option, none, some, List, [], ◌∷◌, if◌then◌else◌, str_eq,
  map, filter,
}
use myown_llm_gateway.Base.Int.{ℤ, pos, ◌+ℤ◌}
use myown_llm_gateway.Base.Dict.{Dict}
use myown_llm_gateway.Base.Text.{Text, codes, text_eq}
use myown_llm_gateway.Base.Digits.{int_of_text}
use myown_llm_gateway.Base.Json.{
  Json, null, bool, int, float, str, arr, obj, Items, nil, cons, Fields, end, field,
}
use myown_llm_gateway.Core.Exceptions.{Result, ok, raise, ◌>>=◌, type_error, attribute_error}
use myown_llm_gateway.Core.Values.{get_of, get_or_of, item_of, bool_int, or_raise, string_of}
use myown_llm_gateway.Models.Api.{
  Role, FinishReason, ChatMessage, ChatRequest, ChatResponse, Stop, one, many, never_negative,
  Usage,
}
use myown_llm_gateway.Models.Provider.{ProviderConfig}
use myown_llm_gateway.Providers.Base.{with_request_id, post, parse_response}
use myown_llm_gateway.Providers.Client.{Client, Call, AnthropicPayload, anthropic}
use myown_llm_gateway.Providers.OpenAi.{base_url}
use myown_llm_gateway.Services.Streaming.Chunks.{content_of}

abbrev pub default_base_url : String
default_base_url = "https://api.anthropic.com"

abbrev default_max_tokens : ℕ
default_max_tokens = 4096

abbrev is_system : ChatMessage → Bool
is_system m = elim m.role [ Role.system ↦ true | Role.user ↦ false | Role.assistant ↦ false ]

abbrev role_text : Role → String
role_text Role.system = "system"
role_text Role.user = "user"
role_text Role.assistant = "assistant"

-- `"\n".join(...)`
unfoldable join_lines : List String → String
join_lines [] = ""
join_lines (s ∷ []) = s
join_lines (s ∷ t ∷ rest) = s ++ ("\n" ++ join_lines (t ∷ rest))

-- The content of the system messages, which is apart from the conversation.
unfoldable system_of : List ChatMessage → String
unfolding join_lines
system_of messages = join_lines (map (λ (m : ChatMessage). m.content) (filter is_system messages))

abbrev sequences : Stop → List String
sequences (one s) = s ∷ []
sequences (many ss) = ss

-- `request.max_tokens or DEFAULT_MAX_TOKENS`
abbrev or_default_max : Option ℕ → ℕ
or_default_max none = default_max_tokens
or_default_max (some zero) = default_max_tokens
or_default_max (some (suc n)) = suc n

-- The payload, with `stream` as the request has it, or as `true`
unfoldable payload_of : ChatRequest → Bool → AnthropicPayload
unfolding system_of
payload_of request stream =
    let system = system_of request.messages in
    record {
      model = request.model;
      messages =
          map (λ (m : ChatMessage). (role_text m.role, m.content))
            (filter (λ m. if is_system m then false else true) request.messages);
      max_tokens = or_default_max request.max_tokens;
      temperature = request.temperature;
      stream = stream;
      system = if str_eq system "" then none else some system;
      top_p = request.top_p;
      stop_sequences = elim request.stop [ none ↦ none | some stop ↦ some (sequences stop) ];
    }

-- The two headers of a call.
unfoldable pub headers_of : String → Dict String
headers_of api_key = ("x-api-key", api_key) ∷ ("anthropic-version", "2023-06-01") ∷ []

-- `_STOP_REASON_MAP.get(reason, "stop")`; a list or a dict has no hash
unfoldable pub stop_reason_of : Json → Result FinishReason
unfolding text_eq
stop_reason_of (str reason) =
    ok (if text_eq reason (codes "max_tokens") then FinishReason.length else FinishReason.stop)
stop_reason_of (arr _) = raise type_error
stop_reason_of (obj _) = raise type_error
stop_reason_of _ = ok FinishReason.stop

pub record Coercions : Type 0 where
  -- pydantic's count from a value that is no int; `none` is a `ValidationError`
  pub count_from : Json → Option ℕ
  -- `v + w`, where one of the two is no int
  pub add : Json → Json → Result Json
  -- `int(v)` of a float
  pub truncate : Text → Result ℤ

abbrev int_from : Json → Option ℤ
int_from (int n) = some n
int_from (bool b) = some (bool_int b)
int_from _ = none

-- The first block of text, `""` if there is none: `next` on the generator.
unfoldable first_text : Items → Result Json
unfolding text_eq
first_text nil = ok (str [])
first_text (cons block blocks) =
    let later = first_text blocks in
    do
      kind ← get_of "type" block
      elim kind [
        | str s ↦ if text_eq s (codes "text") then item_of "text" block else later
        | null ↦ later
        | bool _ ↦ later
        | int _ ↦ later
        | float _ ↦ later
        | arr _ ↦ later
        | obj _ ↦ later
      ]

-- The loop over `data["content"]`: the items of a text and of a dict have no `get`.
unfoldable text_of : Json → Result Json
unfolding first_text
text_of (arr blocks) = first_text blocks
text_of (str []) = ok (str [])
text_of (str (c ∷ s)) = raise attribute_error
text_of (obj end) = ok (str [])
text_of (obj (field k v fs)) = raise attribute_error
text_of null = raise type_error
text_of (bool _) = raise type_error
text_of (int _) = raise type_error
text_of (float _) = raise type_error

abbrev plain_text : Json → Result String
plain_text (str s) = content_of s
plain_text v = string_of v

-- A call for the messages of the request.
unfoldable pub call_of : Option String → ProviderConfig → String → ChatRequest → Bool → Call
unfolding payload_of headers_of
call_of context config api_key request stream = record {
  url = base_url config default_base_url ++ "/v1/messages";
  headers = with_request_id context (headers_of api_key);
  payload = anthropic (payload_of request stream);
  timeout = config.timeout;
}

module _ (k : Coercions) where
  unfoldable count_of : Json → Result ℕ
  unfolding never_negative
  count_of v = elim (int_from v) [
    | some n ↦ ok (never_negative n)
    | none ↦ or_raise (k.count_from v)
  ]

  abbrev sum_ints : Option ℤ → Option ℤ → Result Json → Result Json
  sum_ints (some m) (some n) other = ok (int (m +ℤ n))
  sum_ints (some m) none other = other
  sum_ints none n other = other

  unfoldable sum_of : Json → Json → Result Json
  sum_of v w = sum_ints (int_from v) (int_from w) (k.add v w)

  -- `int(v)`
  unfoldable pub int_of : Json → Result ℤ
  int_of (int n) = ok n
  int_of (bool b) = ok (bool_int b)
  int_of (float s) = k.truncate s
  int_of (str s) = or_raise (int_of_text s)
  int_of null = raise type_error
  int_of (arr _) = raise type_error
  int_of (obj _) = raise type_error

  -- `message` and `finish_reason` of the choice, and the usage, as their schemas take them.
  abbrev built : Json → Json → Json → ℕ → Json → Json → Result ChatResponse
  built id model text now stop_reason usage = do
    content ← plain_text text
    finish_reason ← stop_reason_of stop_reason
    input ← item_of "input_tokens" usage
    output ← item_of "output_tokens" usage
    total ← sum_of input output
    prompt_tokens ← count_of input
    completion_tokens ← count_of output
    total_tokens ← count_of total
    id' ← string_of id
    model' ← string_of model
    ok (record {
      id = id';
      created = now;
      model = model';
      choices =
          record {
            index = 0;
            message = record { role = Role.assistant; content = content };
            finish_reason = finish_reason;
          }
          ∷ [];
      usage = record {
        prompt_tokens = prompt_tokens;
        completion_tokens = completion_tokens;
        total_tokens = total_tokens;
      };
    })

  -- `_build_response`, at the time `now`
  unfoldable pub build_response : ℕ → Json → Result ChatResponse
  unfolding text_of stop_reason_of count_of sum_of
  build_response now body = do
    blocks ← item_of "content" body
    text ← text_of blocks
    usage ← item_of "usage" body
    id ← item_of "id" body
    model ← item_of "model" body
    stop_reason ← get_or_of "stop_reason" (str []) body
    built id model text now stop_reason usage

  module _ {W : Type 0} (client : Client W) (context : Option String)
      (config : ProviderConfig) where
    -- `chat_completion`; the answer is read at the time `now`
    unfoldable pub complete : ℕ → String → ChatRequest → W → Result ChatResponse × W
    unfolding call_of
    complete now api_key request w =
        let (outcome, w') = client.post (call_of context config api_key request request.stream) w in
        (
          do
            body ← post config config.timeout outcome
            parse_response config body (build_response now),
          w',
        )

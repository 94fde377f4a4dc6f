-- ===== src/Providers/Client.antt =====
-- The shared HTTP client, which the program takes from httpx, and what the adapters send by it.
use Prim.Native.Char.{code}
use myown_llm_gateway.Base.{ℕ, String, Bool, Option, List, ◌==◌, if◌then◌else◌}
use myown_llm_gateway.Base.Dict.{Dict}
use myown_llm_gateway.Models.Api.{ChatRequest}
use myown_llm_gateway.Providers.Base.{PostOutcome, Incoming}

-- `request.model_dump(exclude_none=True)`, with the two keys that a stream overrides
pub record OpenAiPayload : Type 0 where
  pub body : ChatRequest
  pub include_usage : Bool

-- The messages of the Anthropic API: `system` is kept apart from the conversation.
pub record AnthropicPayload : Type 0 where
  pub model : String
  pub messages : List (String × String)
  pub max_tokens : ℕ
  pub temperature : ℕ
  pub stream : Bool
  pub system : Option String
  pub top_p : Option ℕ
  pub stop_sequences : Option (List String)

pub data Payload : Type 0 where
  open_ai : OpenAiPayload → Payload
  anthropic : AnthropicPayload → Payload

pub record Call : Type 0 where
  pub url : String
  pub headers : Dict String
  pub payload : Payload
  pub timeout : ℕ

-- `httpx.AsyncClient`
pub record Client (W : Type 0) : Type 0 where
  pub post : Call → W → PostOutcome × W
  pub stream : Call → W → Incoming × W

-- `url.rstrip("/")`
unfoldable pub rstrip_slash : String → String
rstrip_slash String.[] = String.[]
rstrip_slash (String.◌∷◌ c s) =
    let rest = rstrip_slash s in
    elim rest [
      | String.[] ↦ if code c == b'/' then String.[] else String.◌∷◌ c String.[]
      | String.◌∷◌ d t ↦ String.◌∷◌ c (String.◌∷◌ d t)
    ]

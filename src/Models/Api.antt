-- ===== src/Models/Api.antt =====
-- src/llm_gateway/models/api.py: requests, responses and token counts, the validators of
-- requests being in the child. `temperature`, `top_p` and the penalties are in hundredths.
pub mod Validation
use myown_llm_gateway.Base.{ℕ, String, Bool, Option, List}
use myown_llm_gateway.Base.Int.{ℤ, pos, negsuc}
use myown_llm_gateway.Base.Json.{Fields}

pub data Role : Type 0 where
  system user assistant : Role

pub data FinishReason : Type 0 where
  stop length content_filter : FinishReason

pub record ChatMessage : Type 0 where
  pub role : Role
  pub content : String

-- `str | list[str]`
pub data Stop : Type 0 where
  one : String → Stop
  many : List String → Stop

pub record ChatRequest : Type 0 where
  pub model : String
  pub messages : List ChatMessage
  pub temperature : ℕ
  pub top_p : Option ℕ
  pub frequency_penalty : Option ℤ
  pub presence_penalty : Option ℤ
  pub max_tokens : Option ℕ
  pub stop : Option Stop
  pub seed : Option ℤ
  pub user : Option String
  pub response_format : Option Fields
  pub stream : Bool

pub record Usage : Type 0 where
  pub prompt_tokens : ℕ
  pub completion_tokens : ℕ
  pub total_tokens : ℕ

pub record ChatResponseChoice : Type 0 where
  pub index : ℕ
  pub message : ChatMessage
  pub finish_reason : FinishReason

pub record ChatResponse : Type 0 where
  pub id : String
  pub created : ℕ
  pub model : String
  pub choices : List ChatResponseChoice
  pub usage : Usage

-- `Usage()`
abbrev pub no_usage : Usage
no_usage = record { prompt_tokens = 0; completion_tokens = 0; total_tokens = 0 }

-- `_never_negative`
unfoldable pub never_negative : ℤ → ℕ
never_negative (pos n) = n
never_negative (negsuc n) = 0

-- `Usage(prompt_tokens=p, completion_tokens=c, total_tokens=t)`, its validator included
abbrev pub make_usage : ℤ → ℤ → ℤ → Usage
make_usage p c t = record {
  prompt_tokens = never_negative p;
  completion_tokens = never_negative c;
  total_tokens = never_negative t;
}

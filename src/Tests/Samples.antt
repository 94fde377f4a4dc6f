-- ===== src/Tests/Samples.antt =====
-- A request and a response that the tests share.
use Prim.Native.String.{String}
use myown_llm_gateway.Base.{ℕ, suc, false, none, [], ◌∷◌}
use myown_llm_gateway.Models.Api.{ChatRequest, ChatResponse, Role, no_usage}

abbrev pub request : ChatRequest
request = record {
  model = "m";
  messages = (record { role = Role.user; content = "hi" }) ∷ [];
  temperature = 100;
  top_p = none;
  frequency_penalty = none;
  presence_penalty = none;
  max_tokens = none;
  stop = none;
  seed = none;
  user = none;
  response_format = none;
  stream = false;
}

abbrev pub response : ChatResponse
response = record { id = "r"; created = 0; model = "m"; choices = []; usage = no_usage }

-- The number of characters.
abbrev pub size : String → ℕ
size String.[] = 0
size (String.◌∷◌ c s) = suc (size s)

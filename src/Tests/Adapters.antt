-- ===== src/Tests/Adapters.antt =====
-- providers/openai.py on a concrete client.
use myown_llm_gateway.Base.{ℕ, ◌+◌, String, false, none, []}
use myown_llm_gateway.Base.Int.{pos}
use myown_llm_gateway.Base.Json.{Json}
use myown_llm_gateway.Base.Text.{codes}
use myown_llm_gateway.Core.Exceptions.{Result, ok}
use myown_llm_gateway.Models.Api.{ChatResponse}
use myown_llm_gateway.Models.Provider.{ProviderConfig}
use myown_llm_gateway.Providers.Base.{
  post_raised, http_status_error, received, broken, timeout_exception,
}
use myown_llm_gateway.Providers.Client.{Client}
use myown_llm_gateway.Providers.OpenAi.{completions_call, complete, complete_stream}
use myown_llm_gateway.Providers.OpenAi.Failures.{
  IsEvents, complete_stream-IsEvents, Settles, complete-Settles,
}
use myown_llm_gateway.Tests.Samples.{request, response}

abbrev config : ProviderConfig
config = record {
  name = "local";
  base_url = "http://localhost";
  supported_models = [];
  priority = pos 0;
  timeout = 1000;
  model_pricing = [];
}

-- A call is refused with a 429, and a stream breaks after a comment and an event.
abbrev client : Client ℕ
client = record {
  post = λ call calls. (post_raised (http_status_error 429 none), calls + 1);
  stream = λ call calls. (
    received (codes ": ping") (received (codes "data: {}") (broken (timeout_exception "read"))),
    calls + 1,
  );
}

abbrev validate : Json → Result ChatResponse
validate body = ok response

abbrev base : String
base = "http://localhost"

complete_stream-IsEvents_example :
    IsEvents config (complete_stream client none validate config [] base request 0).0
complete_stream-IsEvents_example =
    complete_stream-IsEvents client none validate config [] base request 0

complete-Settles_example :
    let call = completions_call client none validate config [] request false base in
    Settles config validate
      (client.post call 0).0
      (complete client none validate config [] base request 0).0
complete-Settles_example = complete-Settles client none validate config [] base request 0

-- ===== src/Tests/Streaming.antt =====
-- services/streaming.py on concrete providers.
use myown_llm_gateway.Base.{ℕ, ◌+◌, String, [], ◌∷◌}
use myown_llm_gateway.Base.Int.{pos}
use myown_llm_gateway.Base.Dict.{Dict}
use myown_llm_gateway.Base.Text.{codes}
use myown_llm_gateway.Core.Exceptions.{ProviderError, generic, returned_http, provider_error, raise}
use myown_llm_gateway.Providers.Base.{Stream, finished, failed, line, BaseProvider}
use myown_llm_gateway.Services.Streaming.{stream_chat_completion}
use myown_llm_gateway.Tests.Samples.{request}

abbrev broken : ProviderError
broken = generic (returned_http "p" 500) "p"

-- The world counts the calls.
abbrev streaming : String → ℕ → Stream → BaseProvider ℕ
streaming name priority stream = record {
  config = record {
    name = name;
    base_url = "http://localhost";
    supported_models = [];
    priority = pos priority;
    timeout = 1000;
    model_pricing = [];
  };
  chat_completion = λ request calls. (raise (provider_error broken), calls + 1);
  stream_chat_completion = λ request calls. (stream, calls + 1);
}

-- The first fails, the second ends without a line, and the third fails after its first line.
abbrev three : Dict (BaseProvider ℕ)
three =
    ("a", streaming "a" 0 (failed (provider_error broken)))
    ∷ ("b", streaming "b" 1 finished)
    ∷ ("c", streaming "c" 2 (line (codes "data: x") (failed (provider_error broken))))
    ∷ []

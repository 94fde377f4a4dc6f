-- ===== src/Tests/Anthropic.antt =====
-- providers/anthropic.py on a concrete answer.
use myown_llm_gateway.Base.{ℕ, ◌+◌, false, none, []}
use myown_llm_gateway.Base.Int.{pos}
use myown_llm_gateway.Base.Text.{codes}
use myown_llm_gateway.Core.Exceptions.{ok, raise, type_error}
use myown_llm_gateway.Models.Provider.{ProviderConfig}
use myown_llm_gateway.Providers.Base.{response, received, closed}
use myown_llm_gateway.Providers.Client.{Client}
use myown_llm_gateway.Providers.Anthropic.{Coercions}
use myown_llm_gateway.Providers.Anthropic.Events.{complete_stream}
use myown_llm_gateway.Providers.Anthropic.Wire.{
  Answer, data_line, message_start, text_delta, message_delta, message_stop, body_of,
}
use myown_llm_gateway.Providers.Anthropic.Closed.{Closes, complete_stream-Closes}
use myown_llm_gateway.Tests.Samples.{request}

abbrev coercions : Coercions
coercions = record {
  count_from = λ v. none;
  add = λ v w. raise type_error;
  truncate = λ s. ok (pos 0);
}

abbrev config : ProviderConfig
config = record {
  name = "anthropic";
  base_url = "";
  supported_models = [];
  priority = pos 0;
  timeout = 1000;
  model_pricing = [];
}

abbrev sample_answer : Answer
sample_answer = record {
  id = "msg_1";
  model = "claude";
  stop_reason = "max_tokens";
  input_tokens = 12;
  output_tokens = 5;
}

-- The world counts the calls.
abbrev client : Client ℕ
client = record {
  post = λ call calls. (response (ok (body_of sample_answer "Hi, you")), calls + 1);
  stream = λ call calls. (
    received (codes "event: message_start") (
        received (data_line (message_start sample_answer)) (
          received (data_line (text_delta "Hi")) (
            received [] (
              received (data_line (text_delta ", you")) (
                received (data_line (message_delta sample_answer))
                  (received (data_line message_stop) closed)))))),
    calls + 1,
  );
}

complete_stream-Closes_example :
    Closes false (complete_stream coercions client none config (λ n. n) "key" request 0).0
complete_stream-Closes_example =
    complete_stream-Closes coercions client none config (λ n. n) "key" request 0

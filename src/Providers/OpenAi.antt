-- ===== src/Providers/OpenAi.antt =====
-- src/llm_gateway/providers/openai.py: the adapter of OpenAI and of hosts that speak its API.
pub mod Failures
use Prim.Native.String.{◌++◌}
use myown_llm_gateway.Base.{
  String, Bool, true, false, Option, none, some, [], ◌∷◌, str_eq, if◌then◌else◌,
}
use myown_llm_gateway.Base.Dict.{Dict}
use myown_llm_gateway.Base.Json.{Json}
use myown_llm_gateway.Base.Text.{codes, starts_with}
use mathlib.Core.List.{◌++◌ as append}
use myown_llm_gateway.Core.Exceptions.{Result, ◌>>=◌}
use myown_llm_gateway.Models.Api.{ChatRequest, ChatResponse}
use myown_llm_gateway.Models.Provider.{ProviderConfig}
use myown_llm_gateway.Providers.Base.{
  Stream, finished, failed, line, BaseProvider, with_request_id, post, parse_response,
  iter_sse_lines,
}
use myown_llm_gateway.Providers.Client.{Client, Call, open_ai, rstrip_slash}

abbrev pub default_base_url : String
default_base_url = "https://api.openai.com/v1"

-- `(config.base_url or DEFAULT_BASE_URL).rstrip("/")`
unfoldable pub base_url : ProviderConfig → String → String
base_url config default =
    rstrip_slash (if str_eq config.base_url "" then default else config.base_url)

-- `_headers`: no credential, no header
unfoldable pub headers_of : Option String → Dict String
headers_of none = []
headers_of (some api_key) =
    if str_eq api_key "" then [] else ("Authorization", "Bearer " ++ api_key) ∷ []

-- The loop of `stream_chat_completion`: `data: ` lines alone, each closed by a blank line.
unfoldable pub relay_data_lines : Stream → Stream
relay_data_lines finished = finished
relay_data_lines (failed e) = failed e
relay_data_lines (line l rest) =
    let relayed = relay_data_lines rest in
    if starts_with l (codes "data: ") then line (append l (10 ∷ 10 ∷ [])) relayed else relayed

module _ {W : Type 0} (client : Client W) (context : Option String)
    (validate : Json → Result ChatResponse) (config : ProviderConfig) where
  unfoldable pub completions_call : Dict String → ChatRequest → Bool → String → Call
  completions_call headers request include_usage base = record {
    url = base ++ "/chat/completions";
    headers = with_request_id context headers;
    payload = open_ai (record { body = request; include_usage = include_usage });
    timeout = config.timeout;
  }

  -- `chat_completion` over the headers and the base url, which `MistralProvider` has too
  unfoldable pub complete : Dict String → String → ChatRequest → W → Result ChatResponse × W
  unfolding completions_call
  complete headers base request w =
      let (outcome, w') = client.post (completions_call headers request false base) w in
      (do body ← post config config.timeout outcome; parse_response config body validate, w')

  -- `stream_chat_completion`: the body's `stream` is set, and usage is asked for
  unfoldable pub complete_stream : Dict String → String → ChatRequest → W → Stream × W
  unfolding completions_call
  complete_stream headers base request w =
      let call = completions_call headers (record request { stream = true }) true base in
      let (incoming, w') = client.stream call w in
      (relay_data_lines (iter_sse_lines config config.timeout incoming), w')

  -- `OpenAIProvider(config, client, api_key=api_key)`
  unfoldable open_ai_provider : Option String → BaseProvider W
  open_ai_provider api_key = record {
    config = config;
    chat_completion = complete (headers_of api_key) (base_url config default_base_url);
    stream_chat_completion =
        complete_stream (headers_of api_key) (base_url config default_base_url);
  }

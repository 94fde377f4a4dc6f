-- ===== src/Providers/Anthropic/Agreement.antt =====
-- src/llm_gateway/providers/anthropic.py: the same answer of the upstream, as a body and as a
-- stream of events.
use Prim.Native.String.{◌++◌}
use mathlib.Core.List.{◌++◌ as append}
use myown_llm_gateway.Base.{ℕ, String, none, some, List}
use myown_llm_gateway.Base.Text.{Text, codes}
use myown_llm_gateway.Base.Json.{Json, str, end}
use myown_llm_gateway.Models.Chunk.{delta_of}
use myown_llm_gateway.Providers.Client.{Client}
use myown_llm_gateway.Providers.Anthropic.{Coercions}
use myown_llm_gateway.Services.Streaming.Assembly.{line_of, usage_of}
use myown_llm_gateway.Providers.Anthropic.Wire.{Answer, usage, finish_reason}

-- A client that listens to a translated message.
module _ (k : Coercions) (clock : ℕ → ℕ) where
  module _ (a : Answer) where
    abbrev content_line : String → ℕ → Text
    content_line text now =
        line_of a.id a.model now (delta_of none (some (str (codes text)))) none none

    abbrev last_line : ℕ → Text
    last_line now =
        line_of a.id a.model now end (some (finish_reason a)) (some (usage_of (usage a)))

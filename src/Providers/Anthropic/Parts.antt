-- ===== src/Providers/Anthropic/Parts.antt =====
-- src/llm_gateway/providers/anthropic.py: a stream of one message, sent in parts.
use Prim.Native.String.{◌++◌}
use myown_llm_gateway.Base.{
  ℕ, suc, map, ◌+◌, String, none, some, List, [], ◌∷◌, ◌≡◌, ap, ◌∙◌, arith, length,
}
use myown_llm_gateway.Base.Text.{Text}
use myown_llm_gateway.Core.Exceptions.{ok}
use myown_llm_gateway.Providers.Base.{Stream, finished, line}
use myown_llm_gateway.Providers.Anthropic.{Coercions}
use myown_llm_gateway.Providers.Anthropic.Events.{Translation, event_of, on_line, translate}
use myown_llm_gateway.Providers.Anthropic.Wire.{
  Answer, data_line, text_delta, message_start, message_delta, message_stop,
}

-- What the upstream sends between the start of a message and its end.
pub data Part : Type 0 where
  quiet : Text → Part
  piece : String → Part

-- A line that the translation skips, whatever its variables.
abbrev pub IsQuiet : Coercions → Text → Type 0
IsQuiet k l = (now : ℕ) (s : Translation) → on_line k now (event_of l) s ≡ ok (none, s)

abbrev pub AreQuiet : Coercions → List Part → Type 0
AreQuiet k parts = elim parts [
  | [] ↦ Unit
  | quiet l ∷ (rest → are) ↦ IsQuiet k l × are
  | piece text ∷ (rest → are) ↦ are
]

-- `translate` on the next line of a stream.
module _ (k : Coercions) (clock : ℕ → ℕ) (n : ℕ) (s : Translation) (l : Text) (rest : Stream) where
  pub pass :
      on_line k (clock n) (event_of l) s ≡ ok (none, s)
      → translate k clock n s (line l rest) ≡ translate k clock (suc n) s rest
  unfolding translate
  pass e = rw e

  pub yields :
      (out : Text) (s' : Translation)
      → on_line k (clock n) (event_of l) s ≡ ok (some out, s')
      → translate k clock n s (line l rest) ≡ line out (translate k clock (suc n) s' rest)
  unfolding translate
  yields out s' e = rw e

abbrev pub send : List Part → Stream → Stream
send [] rest = rest
send (quiet l ∷ parts) rest = line l (send parts rest)
send (piece text ∷ parts) rest = line (data_line (text_delta text)) (send parts rest)

-- The text of the pieces.
abbrev pub content_of_parts : List Part → String
content_of_parts [] = ""
content_of_parts (quiet l ∷ parts) = content_of_parts parts
content_of_parts (piece text ∷ parts) = text ++ content_of_parts parts

-- Lines that are skipped before a stream.
abbrev pub after_lines : List Text → Stream → Stream
after_lines ls rest = send (map quiet ls) rest

-- A stream of one message, with lines that are skipped wherever they may stand.
abbrev pub events_of : Answer → List Text → List Part → List Text → Stream
events_of a before parts after = after_lines before (
    line (data_line (message_start a)) (
      send parts (
        line (data_line (message_delta a))
          (after_lines after (line (data_line message_stop) finished)))))

module _ (k : Coercions) (clock : ℕ → ℕ) where
  pub translate-after_lines :
      (ls : List Text) (n : ℕ) (s : Translation) (rest : Stream)
      → AreQuiet k (map quiet ls)
      → translate k clock n s (after_lines ls rest) ≡ translate k clock (n + length ls) s rest
  translate-after_lines [] n s rest q = ap (λ m. translate k clock m s rest) (omega arith)
  translate-after_lines (l ∷ ls) n s rest q =
      pass k clock n s l (after_lines ls rest) (q.0 (clock n) s)
      ∙ translate-after_lines ls (suc n) s rest q.1
      ∙ ap (λ m. translate k clock m s rest) (omega arith)

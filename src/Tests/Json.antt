-- ===== src/Tests/Json.antt =====
-- `json` on concrete texts.
use myown_llm_gateway.Base.{◌≡◌, refl, true, some, none, [], ◌∷◌}
use myown_llm_gateway.Base.Int.{pos, negsuc}
use myown_llm_gateway.Base.Text.{codes}
use myown_llm_gateway.Base.Json.{Json, null, bool, int, float, str, arr, obj, nil, cons, end, field}
use myown_llm_gateway.Base.Json.Writer.{dumps}
use myown_llm_gateway.Base.Json.Reader.{loads}

abbrev sample : Json
sample = obj (
    field (codes "a\"") (arr (cons (int (negsuc 119)) (cons null (cons (arr nil) nil))))
      (field (codes "é\n") (str (128512 ∷ 10 ∷ [])) (field [] (obj end) end)))

written :
    dumps sample
    ≡ codes "{\"a\\\"\": [-120, null, []], \"\\u00e9\\n\": \"\\ud83d\\ude00\\n\", \"\": {}}"
unfolding dumps
written = refl

read_back : loads (dumps sample) ≡ some sample
unfolding loads dumps
read_back = refl

floats :
    loads (codes " [1.5e3 , 0, true]\n")
    ≡ some (arr (cons (float (codes "1.5e3")) (cons (int (pos 0)) (cons (bool true) nil))))
unfolding loads
floats = refl

extra : loads (codes "[1 2]") ≡ none
unfolding loads
extra = refl

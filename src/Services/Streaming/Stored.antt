-- ===== src/Services/Streaming/Stored.antt =====
-- src/llm_gateway/services/streaming.py: a response that was built from chunks.
use myown_llm_gateway.Base.{
  ℕ, String, Option, none, some, [], ◌∷◌, ◌≡◌, refl, ap, ◌≤◌, arith, inl, inr, ltb, length,
  Bool-cases,
}
use myown_llm_gateway.Base.Text.{Text, codes}
use myown_llm_gateway.Base.Unicode.{decode, codes-decode}
use myown_llm_gateway.Base.Json.{Json, or_else, truthy}
use myown_llm_gateway.Core.Exceptions.{Result, ok, raise, ◌>>=◌, value_error}
use myown_llm_gateway.Core.Values.{or_raise, string_of}
use myown_llm_gateway.Models.Api.{FinishReason, ChatResponse}
use myown_llm_gateway.Services.Streaming.Chunks.{
  ChunkAccumulator, reason_of, content_of, to_response,
}
use myown_llm_gateway.Services.Streaming.Assembly.{or_cached_id, one_choice}

-- A chain that returned has a first result, of which the rest made the last one.
unchain :
    {A B : Type 0} {last : B} (first : Result A) (next : A → Result B)
    → (do x ← first; next x) ≡ ok last
    → (x : A) × (first ≡ ok x) × (next x ≡ ok last)
unchain (raise e) next done = cc
unchain (ok x) next done = (x, refl, done)

-- The parts of a response that was built.
pub record Built (a : ChunkAccumulator) (now : ℕ) (r : ChatResponse) : Type 0 where
  pub content : String
  pub reason : FinishReason
  pub id : String
  pub model : String
  pub content_built : content_of a.content ≡ ok content
  pub reason_built : reason_of a.finish_reason ≡ ok reason
  pub id_built : string_of (or_else a.id (Json.str (codes "chatcmpl-cached"))) ≡ ok id
  pub model_built : string_of a.model ≡ ok model
  pub whole : one_choice id model content reason a.usage now ≡ r

ok-injective : {A : Type 0} {a b : A} → ok a ≡ ok b → a ≡ b
ok-injective h = cc

pub to_response-Built :
    (now : ℕ) (a : ChunkAccumulator) (r : ChatResponse) → to_response now a ≡ ok r → Built a now r
unfolding to_response
to_response-Built now a r h =
    let (content, c, h1) = unchain (content_of a.content) _ h in
    let (reason, f, h2) = unchain (reason_of a.finish_reason) _ h1 in
    let (id, i, h3) =
      unchain (string_of (or_else a.id (Json.str (codes "chatcmpl-cached")))) _ h2 in
    let (model, m, h4) = unchain (string_of a.model) _ h3 in
    record {
      content = content;
      reason = reason;
      id = id;
      model = model;
      content_built = c;
      reason_built = f;
      id_built = i;
      model_built = m;
      whole = ok-injective h4;
    }

-- The same accumulator gives the same response at another time, but for `created`.
pub to_response-created :
    (now later : ℕ) (a : ChunkAccumulator) (r : ChatResponse)
    → to_response now a ≡ ok r
    → to_response later a ≡ ok (record r { created = later })
unfolding to_response
to_response-created now later a r h =
    let b = to_response-Built now a r h in
    rw (b.content_built, b.reason_built, b.id_built, b.model_built)
      (ap (λ (v : ChatResponse). ok (record v { created = later })) b.whole)

or_raise-eq_ok : {A : Type 0} (o : Option A) {a : A} → or_raise o ≡ ok a → o ≡ some a
or_raise-eq_ok none h = cc
or_raise-eq_ok (some a) h = cc

pub content_of-bounded :
    (s : Text) (content : String) → content_of s ≡ ok content → length (codes content) ≤ 50000
unfolding content_of
content_of-bounded s content h = elim (Bool-cases (ltb 50000 (length s))) [
  | inl more ↦ absurd (cc (rw more at h))
  | inr fits ↦
      let found : decode s ≡ some content = or_raise-eq_ok (decode s) (rw fits at h) in
      rw (codes-decode s content found) (ground arith)
]

string_of-ne_nil :
    (c : ℕ) (s : Text) (id : String) → string_of (Json.str (c ∷ s)) ≡ ok id → or_cached_id id ≡ id
string_of-ne_nil c s String.[] h =
    let e : codes String.[] ≡ c ∷ s =
      codes-decode (c ∷ s) String.[] (or_raise-eq_ok (decode (c ∷ s)) h) in
    cc
string_of-ne_nil c s (String.◌∷◌ d t) h = refl

-- A value that is no text, or the default id.
other_id :
    (v : Json) (id : String)
    → string_of v ≡ raise value_error
    → string_of (or_else v (Json.str (codes "chatcmpl-cached"))) ≡ ok id
    → or_cached_id id ≡ id
other_id v id none_there h = elim (Bool-cases (truthy v)) [
  | inl t ↦ absurd (cc (rw t at h, none_there))
  | inr t ↦ string_of-ne_nil _ _ id (rw t at h)
]

-- The id of a response that was built is not empty.
pub id-named :
    (v : Json) (id : String)
    → string_of (or_else v (Json.str (codes "chatcmpl-cached"))) ≡ ok id
    → or_cached_id id ≡ id
id-named (Json.str []) id h = string_of-ne_nil _ _ id h
id-named (Json.str (c ∷ s)) id h = string_of-ne_nil c s id h
id-named Json.null id h = other_id Json.null id refl h
id-named (Json.bool b) id h = other_id (Json.bool b) id refl h
id-named (Json.int n) id h = other_id (Json.int n) id refl h
id-named (Json.float s) id h = other_id (Json.float s) id refl h
id-named (Json.arr vs) id h = other_id (Json.arr vs) id refl h
id-named (Json.obj fs) id h = other_id (Json.obj fs) id refl h

-- ===== src/Services/Streaming/Refusals.antt =====
-- src/llm_gateway/services/streaming.py: how a response fails to be built from chunks.
use myown_llm_gateway.Base.{
  ℕ, Bool, true, false, Option, none, some, ◌≡◌, if◌then◌else◌, arith, ltb, length,
}
use myown_llm_gateway.Base.Text.{Text, codes, text_eq}
use myown_llm_gateway.Base.Unicode.{decode}
use myown_llm_gateway.Base.Json.{Json, or_else}
use myown_llm_gateway.Core.Exceptions.{Exception, Result, ok, raise, ◌>>=◌, value_error}
use myown_llm_gateway.Core.Values.{or_raise, string_of}
use myown_llm_gateway.Services.Streaming.Chunks.{
  ChunkAccumulator, reason_of, content_of, to_response,
}

-- Code that raises nothing but `ValueError`.
pub data Refuses {A : Type 0} : Result A → Type 0 where
  fine : (a : A) → Refuses (ok a)
  refused : Refuses (raise value_error)

Refuses-raise :
    {A : Type 0} {r : Result A} (e : Exception) → Refuses r → r ≡ raise e → e ≡ value_error
Refuses-raise e (fine a) h = cc
Refuses-raise e refused h = ground arith

Refuses-bind :
    {A B : Type 0} {m : Result A} {f : A → Result B}
    → Refuses m
    → ((a : A) → Refuses (f a))
    → Refuses (m >>= f)
Refuses-bind (fine a) k = k a
Refuses-bind refused k = refused

Refuses-or_raise : {A : Type 0} (o : Option A) → Refuses (or_raise o)
Refuses-or_raise none = refused
Refuses-or_raise (some a) = fine a

Refuses-string_of : (v : Json) → Refuses (string_of v)
Refuses-string_of (Json.str s) = Refuses-or_raise (decode s)
Refuses-string_of _ = refused

Refuses-if :
    {A : Type 0} (b : Bool) {x y : Result A} → Refuses x → Refuses y → Refuses (if b then x else y)
Refuses-if true h k = h
Refuses-if false h k = k

Refuses-reason_of : (v : Json) → Refuses (reason_of v)
unfolding reason_of
Refuses-reason_of (Json.str s) = Refuses-if (text_eq s (codes "stop")) (fine _) (
    Refuses-if (text_eq s (codes "length")) (fine _)
      (Refuses-if (text_eq s (codes "content_filter")) (fine _) refused))
Refuses-reason_of _ = refused

Refuses-content_of : (s : Text) → Refuses (content_of s)
unfolding content_of
Refuses-content_of s = Refuses-if (ltb 50000 (length s)) refused (Refuses-or_raise (decode s))

pub to_response-Refuses : (now : ℕ) (a : ChunkAccumulator) → Refuses (to_response now a)
unfolding to_response
to_response-Refuses now a = Refuses-bind (Refuses-content_of a.content) λ content.
    Refuses-bind (Refuses-reason_of a.finish_reason) λ reason.
      Refuses-bind (Refuses-string_of (or_else a.id (Json.str (codes "chatcmpl-cached"))))
        λ id. Refuses-bind (Refuses-string_of a.model) λ model. fine _

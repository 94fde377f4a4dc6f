-- ===== src/Services/Streaming/Lines.antt =====
-- src/llm_gateway/services/streaming.py: what the readers of chunks make of a line that a writer of
-- chunks made.
use myown_llm_gateway.Base.{ℕ, true, false, some, [], ◌∷◌, ◌++◌, append_assoc, ◌≡◌, refl, ap, ◌∙◌}
use myown_llm_gateway.Base.Text.{Text, codes, is_space, lstrip, rstrip, strip}
use myown_llm_gateway.Base.Json.{obj, Fields, end, field}
use myown_llm_gateway.Base.Json.Reader.{loads}
use myown_llm_gateway.Base.Json.Writer.{write_chars, write_value, write_fields, dumps}
use myown_llm_gateway.Base.Json.RoundTrip.{printable, loads-dumps}
use myown_llm_gateway.Models.Chunk.{sse_line}
use myown_llm_gateway.Services.Streaming.Chunks.{chunk_of}

rstrip_cons :
    (d : ℕ) (s t : Text) (c : ℕ) → rstrip t ≡ s ++ c ∷ [] → rstrip (d ∷ t) ≡ d ∷ (s ++ c ∷ [])
unfolding rstrip
rstrip_cons d [] t c h = rw h
rstrip_cons d (e ∷ s) t c h = rw h

rstrip_stop :
    (s : Text) (c : ℕ) (spaces : Text)
    → is_space c ≡ false
    → rstrip spaces ≡ []
    → rstrip (s ++ c ∷ spaces) ≡ s ++ c ∷ []
rstrip_stop [] c spaces h k = unfold rstrip in rw (k, h)
rstrip_stop (d ∷ s) c spaces h k = rstrip_cons d s (s ++ c ∷ spaces) c (rstrip_stop s c spaces h k)

strip_stop :
    (b : ℕ) (s : Text) (c : ℕ) (spaces : Text)
    → is_space b ≡ false
    → is_space c ≡ false
    → rstrip spaces ≡ []
    → strip (b ∷ (s ++ c ∷ spaces)) ≡ b ∷ (s ++ c ∷ [])
unfolding strip
strip_stop b s c spaces h k l =
    ap rstrip (starts_lem b (s ++ c ∷ spaces) h) ∙ rstrip_stop (b ∷ s) c spaces k l
  where
    starts_lem : (b : ℕ) (t : Text) → is_space b ≡ false → lstrip (b ∷ t) ≡ b ∷ t
    starts_lem b t h = unfold lstrip in rw h

write_fields_last : (fs : Fields) → (s : Text) × (write_fields fs ≡ s ++ b'}' ∷ [])
unfolding write_fields
write_fields_last end = ([], refl)
write_fields_last (field k v fs) =
    let (s, e) = write_fields_last fs in
    let front = write_value v ++ s in
    (
      b',' ∷ b' ' ∷ b'"' ∷ (write_chars k ++ b':' ∷ b' ' ∷ front),
      rw (
        e,
        append_assoc (write_chars k) (b':' ∷ b' ' ∷ front) (b'}' ∷ []),
        append_assoc (write_value v) s (b'}' ∷ []),
      ),
    )

dumps-obj : (fs : Fields) → (s : Text) × (dumps (obj fs) ≡ b'{' ∷ (s ++ b'}' ∷ []))
unfolding dumps
dumps-obj end = ([], refl)
dumps-obj (field k v fs) =
    let (s, e) = write_fields_last fs in
    let front = write_value v ++ s in
    (
      b'"' ∷ (write_chars k ++ b':' ∷ b' ' ∷ front),
      rw (
        e,
        append_assoc (write_chars k) (b':' ∷ b' ' ∷ front) (b'}' ∷ []),
        append_assoc (write_value v) s (b'}' ∷ []),
      ),
    )

chunk_of-data :
    (line t : Text)
    → strip line ≡ codes "data: " ++ b'{' ∷ t
    → strip (b'{' ∷ t) ≡ b'{' ∷ t
    → chunk_of line ≡ loads (b'{' ∷ t)
unfolding chunk_of
chunk_of-data line t h k = rw (h, k)

pub strip-dumps : (fs : Fields) → strip (dumps (obj fs)) ≡ dumps (obj fs)
strip-dumps fs =
    let (s, e) = dumps-obj fs in
    rw e (
      strip_stop b'{' s b'}' [] (unfold is_space in refl) (unfold is_space in refl)
        (unfold rstrip in refl))

-- The line that is written for an object is read back as this object, if the object has no float in
-- it and its texts have no surrogate.
pub chunk_of-sse_line :
    (fs : Fields) → printable (obj fs) ≡ true → chunk_of (sse_line (obj fs)) ≡ some (obj fs)
unfolding sse_line
chunk_of-sse_line fs p =
    let (s, e) = dumps-obj fs in
    chunk_of-data (sse_line (obj fs)) (s ++ b'}' ∷ [])
      (rw (e, append_assoc s (b'}' ∷ []) (10 ∷ 10 ∷ [])) (spaced (codes "ata: {" ++ s))) (plain s)
    ∙ rw (rw e at (loads-dumps (obj fs) p))
  where
    spaced : (s : Text) → strip (b'd' ∷ (s ++ b'}' ∷ 10 ∷ 10 ∷ [])) ≡ b'd' ∷ (s ++ b'}' ∷ [])
    spaced s =
        strip_stop b'd' s b'}' (10 ∷ 10 ∷ []) (unfold is_space in refl) (unfold is_space in refl)
          (unfold rstrip in refl)

    plain : (s : Text) → strip (b'{' ∷ (s ++ b'}' ∷ [])) ≡ b'{' ∷ (s ++ b'}' ∷ [])
    plain s =
        strip_stop b'{' s b'}' [] (unfold is_space in refl) (unfold is_space in refl)
          (unfold rstrip in refl)

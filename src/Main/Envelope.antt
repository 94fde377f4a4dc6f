-- ===== src/Main/Envelope.antt =====
-- src/llm_gateway/main.py: what every response of the application has.
use myown_llm_gateway.Base.{String, Option, some, ◌≡◌, refl, inl, inr, Option-cases, eq_iff, arith}
use myown_llm_gateway.Base.Dict.{Dict, lookup, insert, lookup-insert}
use myown_llm_gateway.Core.Exceptions.{Result, ok, raise, ◌>>=◌}
use myown_llm_gateway.Routers.Http.{HeaderValue, text, Http, reply, refuse, crash}
use myown_llm_gateway.Main.{
  error_content, Response, request_id_header, body_of, unless_empty, request_id_of,
  openai_style_exception_handler, handled, set_default, set_defaults, security_headers, respond,
}

-- The headers have a value for the name.
abbrev pub Has : String → Dict HeaderValue → Type 0
Has name headers = (v : HeaderValue) × (lookup name headers ≡ some v)

set_default-keeps :
    (name default j : String) (headers : Dict HeaderValue) (v : HeaderValue)
    → lookup j headers ≡ some v
    → lookup j (set_default name default headers) ≡ some v
unfolding set_default
set_default-keeps name default j headers v h =
    ground (arith, lookup-insert name j (text default) headers, eq_iff j name)

set_default-Has :
    (name default : String) (headers : Dict HeaderValue)
    → Has name (set_default name default headers)
unfolding set_default
set_default-Has name default headers = elim (Option-cases (lookup name headers)) [
  | inr (w, there) ↦ (w, rw (there, there))
  | inl absent ↦ (
    text default,
    rw (absent, lookup-insert name name (text default) headers, (eq_iff name name).1 refl),
  )
]

-- What every response has: the id of its request, and the three headers.
abbrev IsMarked : {A : Type 0} → String → Response A → Type 0
IsMarked id r =
    (lookup request_id_header r.headers ≡ some (text id))
    × Has "X-Content-Type-Options" r.headers
    × Has "X-Frame-Options" r.headers
    × Has "Referrer-Policy" r.headers

-- The response to a request of this id, by what its endpoint did.
abbrev pub IsAnswer : {A : Type 0} → String → Http (Response A) → Result (Response A) → Type 0
IsAnswer id (crash e) out = out ≡ raise e
IsAnswer {A} id (reply v) out =
    (r : Response A) × (out ≡ ok r)
    × (r.status_code ≡ v.status_code)
    × (r.content ≡ v.content)
    × IsMarked id r
IsAnswer {A} id (refuse exc) out =
    (r : Response A) × (out ≡ ok r)
    × (r.status_code ≡ exc.status_code)
    × (r.content
        ≡ error_content
            (record { error = body_of exc.detail; request_id = unless_empty (some id) }))
    × IsMarked id r

module _ (h : Dict HeaderValue) where
  abbrev once : Dict HeaderValue
  once = set_default "X-Content-Type-Options" "nosniff" h

  abbrev twice : Dict HeaderValue
  twice = set_default "X-Frame-Options" "DENY" once

  set_defaults-keeps :
      (j : String) (v : HeaderValue)
      → lookup j h ≡ some v
      → lookup j (set_defaults security_headers h) ≡ some v
  unfolding set_defaults
  set_defaults-keeps j v there = set_default-keeps "Referrer-Policy" "no-referrer" j twice v (
      set_default-keeps "X-Frame-Options" "DENY" j once v
        (set_default-keeps "X-Content-Type-Options" "nosniff" j h v there))

  set_defaults-Has :
      Has "X-Content-Type-Options" (set_defaults security_headers h)
      × Has "X-Frame-Options" (set_defaults security_headers h)
      × Has "Referrer-Policy" (set_defaults security_headers h)
  unfolding set_defaults
  set_defaults-Has =
      let (v, first) = set_default-Has "X-Content-Type-Options" "nosniff" h in
      let (w, second) = set_default-Has "X-Frame-Options" "DENY" once in
      (
        (
          v,
          set_default-keeps "Referrer-Policy" "no-referrer" "X-Content-Type-Options" twice v
              (set_default-keeps "X-Frame-Options" "DENY" "X-Content-Type-Options" once v first),
        ),
        (w, set_default-keeps "Referrer-Policy" "no-referrer" "X-Frame-Options" twice w second),
        set_default-Has "Referrer-Policy" "no-referrer" twice,
      )

-- The two middlewares on a response.
marked :
    {A : Type 0} (id : String) (v : Response A)
    → IsMarked id (record v {
      headers = set_defaults security_headers (insert request_id_header (text id) v.headers);
    })
marked id v =
    let h = insert request_id_header (text id) v.headers in
    let there : lookup request_id_header h ≡ some (text id) =
      lookup-insert request_id_header request_id_header (text id) v.headers in
    let (a, b, c) = set_defaults-Has h in
    (set_defaults-keeps h request_id_header (text id) there, a, b, c)

-- The layers on what the endpoint did, under the id of the request.
abbrev layers : {A : Type 0} → String → Http (Response A) → Result (Response A)
layers id h = do
  v ← (do
    w ← handled (some id) h
    ok (record w { headers = insert request_id_header (text id) w.headers }))
  ok (record v { headers = set_defaults security_headers v.headers })

layers-IsAnswer : {A : Type 0} (id : String) (h : Http (Response A)) → IsAnswer id h (layers id h)
unfolding handled
layers-IsAnswer {A} id (crash e) = refl
layers-IsAnswer {A} id (reply v) = (_, refl, refl, refl, marked id v)
layers-IsAnswer {A} id (refuse exc) =
    (_, refl, refl, refl, marked {A = A} id (openai_style_exception_handler (some id) exc))

-- Every response of the application, to whatever its endpoint returns or refuses, has the header
-- X-Request-ID with the client's id, or with the generated one if the client sent none or an empty
-- one, and the three security headers; the content is the endpoint's, or for an HTTPException the
-- envelope of its detail with the same id. Any other exception leaves the middlewares as it is.
pub respond-IsAnswer :
    {A : Type 0} (header : Option String) (generated : String)
    (endpoint : Option String → Http (Response A))
    → let id = request_id_of header generated in
      IsAnswer id (endpoint (some id)) (respond header generated endpoint)
unfolding respond
respond-IsAnswer header generated endpoint =
    let id = request_id_of header generated in layers-IsAnswer id (endpoint (some id))

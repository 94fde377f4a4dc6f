-- ===== src/Main.antt =====
-- src/llm_gateway/main.py: what stands between an endpoint and the client. A name of a header is
-- in the case in which the code writes it, and the headers that Starlette adds by itself are left out.
pub mod Envelope
use Prim.Native.String.{◌++◌}
use myown_llm_gateway.Base.{
  ℕ, String, true, false, is_none, filter, Option, none, some, List, [], ◌∷◌, str_eq, if◌then◌else◌,
}
use myown_llm_gateway.Base.Dict.{Dict, lookup, insert}
use myown_llm_gateway.Core.Exceptions.{Result, ok, raise, ◌>>=◌}
use myown_llm_gateway.Routers.Http.{
  ErrorBody, fixed, HeaderValue, text, Detail, plain, envelope, HttpException, Http, reply, refuse,
  crash,
}

-- The body of an error, with the id of its request.
pub record ErrorContent : Type 0 where
  pub error : ErrorBody
  pub request_id : Option String

pub data Content (A : Type 0) : Type 0 where
  value : A → Content A
  error_content : ErrorContent → Content A

pub record Response (A : Type 0) : Type 0 where
  pub status_code : ℕ
  pub headers : Dict HeaderValue
  pub content : Content A

abbrev pub request_id_header : String
request_id_header = "X-Request-ID"

-- `if request_id: ...`
abbrev pub unless_empty : Option String → Option String
unless_empty none = none
unless_empty (some id) = if str_eq id "" then none else some id

-- `detail` as an envelope
unfoldable pub body_of : Detail → ErrorBody
body_of (envelope body) = body
body_of (plain detail) = record {
  message = fixed detail;
  kind = "invalid_request_error";
  attempted_providers = none;
}

-- The id of a request: the client's, or a new one.
unfoldable pub request_id_of : Option String → String → String
request_id_of none generated = generated
request_id_of (some id) generated = if str_eq id "" then generated else id

-- `headers.setdefault(name, value)`
unfoldable pub set_default : String → String → Dict HeaderValue → Dict HeaderValue
set_default name default headers =
    if is_none (lookup name headers) then insert name (text default) headers else headers

unfoldable pub set_defaults : Dict String → Dict HeaderValue → Dict HeaderValue
unfolding set_default
set_defaults [] headers = headers
set_defaults ((name, default) ∷ rest) headers = set_defaults rest (set_default name default headers)

abbrev pub security_headers : Dict String
security_headers =
    ("X-Content-Type-Options", "nosniff")
    ∷ ("X-Frame-Options", "DENY")
    ∷ ("Referrer-Policy", "no-referrer")
    ∷ []

module _ {A : Type 0} where
  -- `_openai_style_exception_handler`, over the context's request id
  unfoldable pub openai_style_exception_handler : Option String → HttpException → Response A
  unfolding body_of
  openai_style_exception_handler context exc = record {
    status_code = exc.status_code;
    headers = exc.headers;
    content =
        error_content (record { error = body_of exc.detail; request_id = unless_empty context });
  }

  -- The application inside its middleware: what is no `HTTPException` is not handled here.
  unfoldable pub handled : Option String → Http (Response A) → Result (Response A)
  unfolding openai_style_exception_handler
  handled context (reply response) = ok response
  handled context (refuse exc) = ok (openai_style_exception_handler context exc)
  handled context (crash e) = raise e

  -- `_request_id_middleware`, on what comes next under the bound id
  unfoldable request_id_middleware :
      Option String → String → (Option String → Result (Response A)) → Result (Response A)
  unfolding request_id_of
  request_id_middleware header generated call_next = do
    let request_id = request_id_of header generated
    response ← call_next (some request_id)
    ok (record response { headers = insert request_id_header (text request_id) response.headers })

  -- `_security_headers_middleware`
  unfoldable security_headers_middleware : Result (Response A) → Result (Response A)
  unfolding set_defaults
  security_headers_middleware next = do
    response ← next
    ok (record response { headers = set_defaults security_headers response.headers })

  -- The layers of `create_app`, the last middleware that is added being the outermost.
  unfoldable pub respond :
      Option String → String → (Option String → Http (Response A)) → Result (Response A)
  unfolding security_headers_middleware request_id_middleware handled
  respond header generated endpoint =
      security_headers_middleware
        (request_id_middleware header generated (λ context. handled context (endpoint context)))

-- A failure of the validation of a body, as `errors()` gives it: its place and its message.
pub record ValidationFailure : Type 0 where
  pub place : List String
  pub message : String

pub record ValidationContent : Type 0 where
  pub message : String
  pub param : Option String

abbrev join_dots : List String → String
join_dots [] = ""
join_dots (p ∷ []) = p
join_dots (p ∷ q ∷ ps) = p ++ ("." ++ join_dots (q ∷ ps))

abbrev first_failure : List ValidationFailure → ValidationFailure
first_failure [] = record { place = []; message = "Invalid request" }
first_failure (f ∷ fs) = f

-- `_validation_exception_handler`: the status and the error, which has no `request_id`
unfoldable pub validation_exception_handler : List ValidationFailure → ℕ × ValidationContent
validation_exception_handler errors =
    let first = first_failure errors in
    (
      400,
      record {
        message = first.message;
        param = unless_empty (
            some (
              join_dots (filter (λ part. if str_eq part "body" then false else true) first.place)));
      },
    )

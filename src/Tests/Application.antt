-- ===== src/Tests/Application.antt =====
-- main.py, the health probes and the validators of the settings on concrete values.
use myown_llm_gateway.Base.{ℕ, true, false, none, some, [], ◌∷◌, ◌≡◌, refl}
use myown_llm_gateway.Base.Int.{pos}
use myown_llm_gateway.Core.Config.{blank_spend_limit_means_unset, positive_redis_timeout}
use myown_llm_gateway.Core.Exceptions.{ok, raise, type_error, value_error}
use myown_llm_gateway.Routers.Chat.Registry.{get_registry, close_registry}
use myown_llm_gateway.Routers.Health.{answer, timeout_error, other_error, readiness}
use myown_llm_gateway.Routers.Http.{plain, HttpException, refuse}
use myown_llm_gateway.Main.{respond, request_id_of, validation_exception_handler}
use myown_llm_gateway.Main.Envelope.{IsAnswer, respond-IsAnswer}

abbrev not_found : HttpException
not_found = record { status_code = 404; detail = plain "Not Found"; headers = [] }

respond-IsAnswer_example :
    let id = request_id_of (some "") "generated" in
    IsAnswer {A = ℕ} id
      (refuse not_found)
      (respond (some "") "generated" (λ context. refuse not_found))
respond-IsAnswer_example =
    respond-IsAnswer {A = ℕ} (some "") "generated" (λ context. refuse not_found)

built_once :
    let (first, kept) = get_registry {R = ℕ} 1 none in
    let (again, still) = get_registry {R = ℕ} 2 kept in
    (again ≡ 1) × (close_registry still ≡ (true, none))
unfolding get_registry close_registry
built_once = (refl, refl)

degraded :
    readiness timeout_error (answer true)
    ≡ ok (record { status_code = 503; ready = false; redis = false; database = true })
unfolding readiness
degraded = refl

raises : readiness (other_error type_error) (answer true) ≡ raise type_error
unfolding readiness
raises = refl

blank : blank_spend_limit_means_unset (some " ") ≡ none
unfolding blank_spend_limit_means_unset
blank = refl

zero_timeout : positive_redis_timeout (pos 0) ≡ raise value_error
unfolding positive_redis_timeout
zero_timeout = refl

named_param :
    validation_exception_handler
      (record { place = "body" ∷ "top_p" ∷ []; message = "too big" } ∷ [])
    ≡ (400, record { message = "too big"; param = some "top_p" })
unfolding validation_exception_handler
named_param = refl

-- ===== src/Lib.antt =====
-- The LLM gateway: an OpenAI-compatible HTTP service that authenticates virtual keys, limits their
-- rate and their spending, routes a request over upstream providers with fallback, caches answers
-- and records usage. This library models its Python code, under src/llm_gateway.
--
-- A chat request passes routers/chat.py: `authenticate_request` finds the row of its key,
-- `enforce_rate_limit` and `enforce_spend_cap` may refuse it, and `chat_completions` hands it to
-- services/gateway.py. There it is answered from the cache, by a request in flight, by another
-- replica that holds the lock, or by the providers in the order of services/router.py, tried by
-- services/fallback.py. The usage goes to the counters at once, and to the database by a task.
--
-- A streaming request has its guards and then a body, which is produced while the client reads it:
-- services/streaming.py replays a cached response, or relays the lines of the first provider that
-- has one, from which it captures the usage and accumulates a response for the cache. The adapter
-- of providers/anthropic.py translates the events of its upstream to such lines. main.py adds the
-- headers of a response, and turns an `HTTPException` into its envelope.
--
-- The modules, and the code that they are about:
--   Base        lists, texts, dicts, integers and sorting, as Python has them; Base.Json is the
--               reader and the writer of JSON, `json.loads` and `json.dumps`
--   Models      models/api.py (with its validators in Models.Api.Validation), models/provider.py
--               and models/usage.py; Models.Chunk is the line of a chunk, which
--               services/streaming.py and providers/anthropic.py write by the same statements
--   Core        core/exceptions.py, core/security.py, core/rate_limiter.py and the validators of
--               core/config.py; Core.Values is what Python makes of a value that JSON gave
--   Providers   providers/base.py, openai.py, mistral.py, anthropic.py and factory.py; `Client` is
--               httpx
--   Storage     storage/orm.py and storage/repositories.py: the database is its three tables
--   Services    services/router.py, fallback.py, cache.py, gateway.py, streaming.py, usage.py,
--               metrics.py and prometheus_metrics.py
--   Routers     routers/chat.py, keys.py, models.py, usage.py, logs.py and health.py, with the
--               check of storage/redis.py
--   Cli         cli.py
--   Main        main.py: the middlewares and the handlers of exceptions
--   Tests       runs on concrete inputs
-- A function has the name of the Python function without its leading underscore. A function of
-- several branches is split where it takes a value apart, and the parts stand before it.
--
-- State. Redis, the database, the counters, the tasks that wait, the in-flight table and the world
-- of the providers are values that an operation takes and returns. A command to Redis comes with a
-- `Delivery`: it is answered, it is lost, or it runs and its answer is lost; the last two raise
-- `RedisError`. A coroutine of the gateway gives way at its awaits, where a function `others` says
-- what the other tasks and replicas do to the state. An exception is a value of `Exception`, and a
-- message is kept as its f-string's constructor over the values in it.
--
-- Units. Times are in microseconds, timeouts of providers and of the lock in milliseconds, prices
-- in cents for 1,000,000 tokens, costs and spend limits in units of 10^-8 dollars, in which every
-- product of a price and a number of tokens is whole. What a column of the database makes of an
-- amount is the parameter `stored`. Integers are unbounded, as Python's.
--
-- Texts. A JSON text is a list of code points, where a lone surrogate may stand, as in Python's
-- `str`; a value read from it keeps its class, and an operation that the class does not have raises.
-- A float is kept as its text.
--
-- Fuel. The loop of `wait_for_result` takes 41 rounds: its 2 seconds hold 40 intervals of 50 ms,
-- and one more round reads the clock past the deadline. `loads` has one unit for each character of
-- the text and one more; every value that it descends into takes a character at least. All other
-- loops are structural.
--
-- Parameters: the hash of keys and the digest of cache keys, pydantic's JSON of a response
-- (`Codec`), what Python and pydantic make of a number that is no int (`Coercions`), the HTTP
-- client, random tokens, and the clock.
--
-- Not modelled: a task of the gateway that is cancelled; the lifespan of main.py and FastAPI's
-- wiring of routers and of validation; what cli.py prints, pools of connections and the
-- migrations; the timestamps of the log's rows; Python's limits on the digits of an int and on the
-- depth of JSON; a float too small for Python to tell from zero; a count of tokens below zero that
-- comes as a text or a float. Logging has no effect on the rest.
pub mod Base
pub mod Models
pub mod Core
pub mod Providers
pub mod Storage
pub mod Services
pub mod Routers
pub mod Cli
pub mod Main
mod Tests

-- ===== src/Tests/Guarded.antt =====
-- routers/chat.py: a request with a key, and one without.
use myown_llm_gateway.Base.{ℕ, true, false, none, some, ◌∷◌, [], ◌≡◌, refl, ◌⊎◌}
use myown_llm_gateway.Base.Text.{codes}
use myown_llm_gateway.Core.RateLimiter.{answered, no_key}
use myown_llm_gateway.Storage.Orm.{Database, empty_database}
use myown_llm_gateway.Routers.Chat.Auth.{authenticate_request}
use myown_llm_gateway.Routers.Chat.Guarded.{
  Context, IsUntouched, Passes, after_auth, serve, serve_guarded,
}
use myown_llm_gateway.Tests.Samples.{request}
use myown_llm_gateway.Tests.Gateway.{codec, digest, one_provider, run, state}

abbrev context : Context ℕ
context = record {
  hash = λ raw. "h";
  limits = record { requests = 2; window_seconds = 1; fail_open = false };
  global_limit = none;
  max_tokens_per_request = 4096;
  codec = codec;
  ttl_seconds = 300;
  digest = digest;
  registry = one_provider;
  run = run;
  pipe = answered;
  undo = answered;
  now = 5;
  token = 1;
}

abbrev database : Database
database = record empty_database {
  api_keys =
      (record {
        id = 1;
        hashed_key = "h";
        client_name = codes "app";
        is_active = true;
        spend_limit_usd = none;
        expires_at = none;
        created_at = 0;
      })
      ∷ [];
}

-- No header, no call.
not_called : (serve context database request none (λ k. no_key) state).2.world ≡ 0
unfolding serve after_auth authenticate_request
not_called = refl

serve_guarded_example :
    IsUntouched context database request state
      (serve context database request (some (codes "Bearer sk")) (λ k. no_key) state).2
    ⊎ ((key : ℕ) × Passes context database request
          (some (codes "Bearer sk"))
          (λ k. no_key)
          state
          key)
serve_guarded_example =
    serve_guarded context database request (some (codes "Bearer sk")) (λ k. no_key) state

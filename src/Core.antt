-- ===== src/Core.antt =====
-- src/llm_gateway/core: exceptions, virtual keys and the rate limiter.
pub mod Exceptions
pub mod Values
pub mod Config
pub mod RateLimiter
pub mod Security

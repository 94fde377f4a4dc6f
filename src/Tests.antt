-- ===== src/Tests.antt =====
-- Runs of the model on concrete inputs, and the theorems at inputs where their hypotheses hold.
mod Samples
mod RateLimiter
mod Routing
mod Cache
mod Accounting
mod Gateway
mod Streaming
mod Chunks
mod Anthropic
mod StreamBody
mod Application
mod Adapters
mod Commands
mod Guarded
mod Json

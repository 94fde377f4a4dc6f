-- ===== src/Providers.antt =====
-- src/llm_gateway/providers: the adapters of the upstream services, and their registry.
pub mod Base
pub mod Client
pub mod OpenAi
pub mod Anthropic
pub mod Mistral
pub mod Factory

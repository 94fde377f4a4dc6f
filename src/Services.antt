-- ===== src/Services.antt =====
-- src/llm_gateway/services: routing, fallback, metrics, usage records and the response cache.
pub mod Router
pub mod Fallback
pub mod Prometheus
pub mod Metrics
pub mod Usage
pub mod Cache
pub mod SingleFlight
pub mod Gateway
pub mod Streaming

-- ===== src/Routers.antt =====
-- src/llm_gateway/routers: the HTTP endpoints.
pub mod Http
pub mod Chat
pub mod Models
pub mod Keys
pub mod Reports
pub mod Health

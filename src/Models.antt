-- ===== src/Models.antt =====
-- src/llm_gateway/models: the schemas that the other packages share.
pub mod Api
pub mod Chunk
pub mod Provider
pub mod Usage

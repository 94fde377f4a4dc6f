-- ===== src/Storage.antt =====
-- src/llm_gateway/storage: the tables, and the repository functions over them.
pub mod Orm
pub mod Repositories

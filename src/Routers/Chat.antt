-- ===== src/Routers/Chat.antt =====
-- src/llm_gateway/routers/chat.py: the chat completions endpoint and the guards before it.
pub mod Auth
pub mod Admitted
pub mod Guards
pub mod Completions
pub mod Registry
pub mod Stream
pub mod Left
pub mod Drained
pub mod Rows
pub mod Streamed
pub mod Repeats
pub mod Replayed
pub mod Alike
pub mod Logged
pub mod Guarded
pub mod Caps

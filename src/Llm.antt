-- ===== src/Llm.antt =====
-- internal/llm: the calls of a model provider.
pub mod Retry

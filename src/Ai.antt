-- ===== src/Ai.antt =====
-- internal/ai: the task pipelines and the enrichment of entities.
pub mod Tasks
pub mod Enrichment

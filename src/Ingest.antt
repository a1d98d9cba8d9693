-- ===== src/Ingest.antt =====
-- internal/ingest/declarative: the batching of streamed messages (`Batcher`), and the delays between
-- retries and reconnections and the loop that reconnects (`Backoff`).
pub mod Batcher
pub mod Backoff
pub mod Pagination
pub mod Mirrors
pub mod Tokens
pub mod Hosts
pub mod Origins

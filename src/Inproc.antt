-- ===== src/Inproc.antt =====
-- The in-process message bus, internal/infra/inproc: subjects and filters (`Subject`), the broker
-- (`Bus`) and the consumer that reads from it (`Consumer`).
pub mod Subject
pub mod Bus
pub mod Consumer

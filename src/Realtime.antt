-- ===== src/Realtime.antt =====
-- internal/realtime: what a WebSocket client keeps (`Client`, `Filter`), the boxes that it looks at
-- (`Geometry`) and its requests (`TimeRange`).
pub mod Geometry
pub mod Filter
pub mod Client
pub mod TimeRange
pub mod Pump
pub mod Hub
pub mod Paging
pub mod Subscribe
pub mod Flush
pub mod OnDemand

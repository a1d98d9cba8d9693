-- ===== src/Domain.antt =====
-- internal/domain: the registry of declared sources and layers (`Registry`).
pub mod Registry

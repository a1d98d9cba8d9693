-- ===== src/Geocoder.antt =====
-- internal/geocoder/cached.go: `CachedGeocoder`, over an interface for its cache, which
-- internal/infra/inmem/kv.go implements (`Kv`).
pub mod Kv
pub mod Cached

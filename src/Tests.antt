-- ===== src/Tests.antt =====
-- The theorems at concrete inputs.
mod Inproc
mod Domain
mod Realtime
mod Delivery
mod Ingest
mod Geocoder
mod Sql
mod Llm
mod Pagination
mod Tasks
mod OnDemand
mod Enrichment
mod RateLimit
mod Sources
mod Origins

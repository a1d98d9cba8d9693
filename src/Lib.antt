-- ===== src/Lib.antt =====
-- A model of the core of the Respondent community server, which takes in observations from declared
-- sources and serves them to browsers over WebSockets.
--
-- Parts and files. A source adapter hands batches of messages to the ingest pipeline (Ingest), the
-- in-process broker carries subjects to consumers (Inproc), the registry says which layer a source
-- feeds and how the layer behaves (Domain), the realtime server keeps one state for each client and
-- sends it snapshots, pages and batches of updates (Realtime), the geocoder answers place
-- queries through a cache (Geocoder), model providers are called with retries (Llm) to run task
-- pipelines and to enrich entities (Ai), and the SQL that a model writes is checked before it runs
-- (Sql).
-- Common: shared helpers; Dict is a Go map as an association list, MultiMap a map of slices,
--   Partial the code that can panic or block, as an Option.
-- Inproc/Subject, Inproc/Bus, Inproc/Consumer: internal/infra/inproc/bus.go and consumer.go. The
--   functions keep their names (SubjectMatches is subject_matches); a channel is its number.
-- Domain/Registry and its children: internal/domain/dynamic_registry.go, one operation for each
--   method.
-- Realtime/Client: the tables of a client and the methods of internal/realtime/client_state.go.
--   Realtime/Pump: its Send channel, the sends that count drops, and writePump. Realtime/Hub:
--   Server.Run of websocket.go over the channels of all connections; the panic of a send on a closed
--   channel is the result none. Realtime/Flush: broadcast.go; its batches are events of the Hub.
--   Realtime/Subscribe, Realtime/Paging: subscribe.go. Realtime/TimeRange: timerange.go.
--   Realtime/Filter: notification_filter.go. Realtime/Geometry: boxes, over an interface for float64
--   without laws. Realtime/OnDemand and its
--   children: the fill of a sparse region, its write and the poll tickers of ondemand.go.
-- Geocoder/Kv, Geocoder/Cached: internal/infra/inmem/kv.go and internal/geocoder/cached.go; Kv has
--   the interface that Cached is written over, and the in-memory cache fills it.
-- Ingest/Batcher, Ingest/Backoff, Ingest/Pagination: batching.go, adapter_retry.go and reconnect.go,
--   and adapter_pagination.go of internal/ingest/declarative. Ingest/Hosts,
--   Ingest/Origins, Ingest/Mirrors, Ingest/Tokens: hostpolicy.go, the origins and the selection of a
--   mirror of discovery.go with fetchDiscovered of transport.go, and token_provider.go. What they use of net/netip is a parameter.
-- RateLimit: the limits and buckets of internal/ratelimit/transport.go.
-- Sql: internal/sqlsafety/validator.go over the syntax tree of a parser that is a parameter.
-- Llm/Retry: internal/llm/retry.go over what the attempts of a provider give.
-- Ai/Tasks and its children: engine.go, definition.go and loader.go of internal/ai/tasks; an AI step
--   calls Llm/Retry. Ai/Enrichment: processJob and processOperation of
--   internal/ai/enrichment/worker.go, whose writes are a list of effects.
-- Tests: the theorems at concrete inputs.
--
-- Every operation that holds a mutex throughout is one step; the loop that sends a snapshot's chunks
-- holds none, and Realtime/Paging lets the other goroutines act between its sends. The order in which Go ranges over a map
-- is that of the association list; the theorems hold for every order. Times and durations are
-- nanoseconds; int64 products keep their wrap-around (Realtime/TimeRange.hours,
-- Ingest/Backoff.doubled). The only fuel is the length of a list in Realtime/Paging.chunk_loop, which
-- is enough since each turn drops at least one element, and the number of page requests in
-- Realtime/Paging/Crawl, which describes a client and not the server; the loops over attempts, rounds
-- and pages recurse on what is left of the bound that the source itself has.
--
-- Not modelled: the SQL of the stores, of which Realtime/Paging assumes that a page is a stretch of
-- one list of rows; the JSON and base64 of the messages; the HTTP and gRPC transports and the
-- generated code; the external geocoding and model providers; the parsers of source formats; the
-- AI analysis; the waits of the rate limiter; the front end.
pub mod Common
pub mod Inproc
pub mod Domain
pub mod Realtime
pub mod Geocoder
pub mod Ingest
pub mod Sql
pub mod Llm
pub mod Ai
pub mod RateLimit
pub mod Tests

-- ===== src/Transport.antt =====
-- The package `transport`: retries (retry.go), the SSE reader and frame parser (sse.go), and the
-- bytes that they work on.
pub mod Bytes
pub mod Retry
pub mod Sse

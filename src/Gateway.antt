-- ===== src/Gateway.antt =====
-- The package `gateway`: the health tracker, and the HTTP handler that tries route after route.
pub mod Health
pub mod Handler

-- ===== src/Unified.antt =====
-- The package `unified`: the canonical request, response and event types, and `Collect`.
pub mod Kinds
pub mod Content
pub mod Request
pub mod Errors
pub mod Usage
pub mod Event
pub mod Response
pub mod Collect
pub mod Json
pub mod Extensions

-- ===== src/Router.antt =====
-- The package `router`: which provider endpoints can serve a request, and in what order.
pub mod Types
pub mod Capabilities
pub mod Rank
pub mod Routes
pub mod Gather
pub mod Selection
pub mod Failure
pub mod Shadow

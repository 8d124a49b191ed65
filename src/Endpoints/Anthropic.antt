-- ===== src/Endpoints/Anthropic.antt =====
-- endpoints/anthropicmessages/codec.go.
pub mod Stream
pub mod Decode
pub mod Respond
pub mod Passes
pub mod Steps
pub mod ReadBack
pub mod Messages
pub mod LostCall
pub mod Opened
pub mod Writes
pub mod Order
pub mod Continued

-- ===== src/Endpoints/Chat.antt =====
-- endpoints/openaichatcompletions/: the wire types of wire.go, the decoding of requests and the
-- encoding of responses and streams of codec.go.
pub mod Wire
pub mod Stream
pub mod Decode
pub mod Requests
pub mod BadRequests
pub mod Merged

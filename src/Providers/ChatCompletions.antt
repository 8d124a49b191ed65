-- ===== src/Providers/ChatCompletions.antt =====
-- providers/openai/chatcompletions/: the wire types of wire.go, the request encoder
-- and the stream decoder of codec.go and
-- `readStream` of client.go.
pub mod Wire
pub mod Decoder
pub mod Encoder
pub mod Client
pub mod Returns
pub mod Run
pub mod LostText
pub mod Texts

-- ===== src/Providers/Anthropic.antt =====
-- providers/anthropic/messages/: the wire types that the decoder reads (anthropicwire/wire.go), the
-- quota event of quota.go and the stream decoder of decoder.go.
pub mod Wire
pub mod Quota
pub mod Decoder
pub mod Blocks
pub mod SystemContent

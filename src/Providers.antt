-- ===== src/Providers.antt =====
-- The decoders of the providers' streams, in providers/.
pub mod Anthropic
pub mod ChatCompletions
pub mod Citations

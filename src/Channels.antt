-- ===== src/Channels.antt =====
-- The channels that decode, encode and lose messages (src/flockwave/channels).
pub mod Lossy
pub mod Parser
pub mod Message
pub mod Encoder
pub mod Built
pub mod ForRpc
mod Tests

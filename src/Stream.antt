-- ===== src/Stream.antt =====
-- Connections that wrap a Trio stream (src/flockwave/connections/stream.py), a process
-- (src/flockwave/connections/process.py) or a pair of channels (src/flockwave/connections/channel.py).
pub mod Base
pub mod Laws
pub mod Wrapper
pub mod Process
pub mod Loopback
pub mod Fifo
mod Tests

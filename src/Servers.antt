-- ===== src/Servers.antt =====
-- Listeners on Unix domain sockets (src/flockwave/connections/servers.py).
pub mod Unix
pub mod Cleanup
mod Tests

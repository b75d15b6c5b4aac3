-- ===== src/Socket.antt =====
-- Socket bindings and the UDP listener connection (src/flockwave/connections/socket.py).
pub mod Binding
pub mod Udp
pub mod Laws
pub mod Broadcast
pub mod Variants
pub mod Silent
pub mod Tcp
pub mod Once
pub mod Connected
pub mod Multicast
mod Tests
mod ClientTests

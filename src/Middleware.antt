-- ===== src/Middleware.antt =====
-- The middleware of connections (src/flockwave/connections/middleware).
pub mod Base
pub mod Transparent
pub mod Format
mod Tests

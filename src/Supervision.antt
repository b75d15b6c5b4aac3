-- ===== src/Supervision.antt =====
-- Supervision of connections (src/flockwave/connections/supervision.py).
pub mod Loop
pub mod Policies
pub mod Supervisor
mod Tests

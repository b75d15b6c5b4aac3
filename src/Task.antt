-- ===== src/Task.antt =====
-- Connections and listeners that live in a task of their own: TaskConnectionBase
-- (src/flockwave/connections/base.py).
pub mod State
pub mod Cancelled
pub mod Lemmas
pub mod Frozen
pub mod Stuck
pub mod Ends
mod Tests

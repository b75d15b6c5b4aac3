-- ===== src/Nursery.antt =====
-- Listeners that run in a nursery: TrioListenerBase (src/flockwave/listeners/base.py).
pub mod State
pub mod Ends
pub mod Stranded
mod Tests

-- ===== src/Listener.antt =====
-- The state of a listener and its signals, and the calls of `open` and `close` on it
-- (src/flockwave/listeners/base.py).
pub mod State
pub mod Calls
pub mod View
mod Tests

-- ===== src/Connection.antt =====
-- The state of a connection and its signals (src/flockwave/connections/base.py, ConnectionState
-- and ConnectionBase), and the calls of `open` and `close` that run on it at the same time.
-- `Calls` holds the operations as steps between two checkpoints of the event loop; the proofs are
-- in the other children.
pub mod State
pub mod Calls
pub mod Signals
pub mod Hooks
pub mod Exclusion
pub mod Alone
pub mod Races
mod Tests

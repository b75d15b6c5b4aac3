-- ===== src/Descriptor.antt =====
-- Connections to a file descriptor or a file-like object: FDConnectionBase of
-- src/flockwave/connections/base.py, and its subclasses in src/flockwave/connections/file.py.
pub mod State
pub mod Operations
pub mod Files
pub mod Laws
pub mod Linked
pub mod Output
mod Tests

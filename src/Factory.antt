-- ===== src/Factory.antt =====
-- The connection and listener factories (src/flockwave/connections/factory.py, and the instance of
-- src/flockwave/listeners/factory.py): registration, `create` from a dictionary, and `use`.
pub mod Registry
pub mod Create
pub mod Laws
pub mod Use
pub mod Url
pub mod Roundtrip
mod Tests

-- ===== src/Storage/Tests.antt =====
-- Examples for the properties of a Storage Node.
pub mod Documents
pub mod Filtering
pub mod Routing
pub mod Storing

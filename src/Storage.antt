-- ===== src/Storage.antt =====
-- StorageNode/StorageNode.cpp: what a Storage Node stores, how it answers filters and in which order
-- it executes state changes.
pub mod Order
pub mod Search
pub mod World
pub mod Kept
pub mod Trees
pub mod Commits
pub mod Expression
pub mod Evaluation
pub mod Filtering
pub mod Documents
pub mod Commands
pub mod Tests

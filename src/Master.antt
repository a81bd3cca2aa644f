-- ===== src/Master.antt =====
-- The Master Node: MasterNodeLib/MasterNodeLib.cpp and .h, and the handlers of MasterNode/main.cpp.
pub mod State
pub mod Clock
pub mod Producers
pub mod Voting
pub mod Storage
pub mod Ledger
pub mod Request
pub mod Closing
pub mod Handlers
mod Tests

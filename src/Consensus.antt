-- ===== src/Consensus.antt =====
-- sawtooth_sdk/consensus: the service that an engine calls and the driver that feeds it.
pub mod Service
pub mod Notifications
pub mod Driver
mod Tests

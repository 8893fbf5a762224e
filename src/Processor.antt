-- ===== src/Processor.antt =====
-- The transaction processor (sawtooth_sdk/processor).
pub mod Access
pub mod Context
pub mod Core
pub mod Running
pub mod Config
mod Tests

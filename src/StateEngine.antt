-- ===== src/StateEngine.antt =====
-- src/tasker_rfid/services/state_engine
pub mod Transitions
pub mod Store
pub mod Engine
pub mod Ledger
pub mod Rule
pub mod Sessions
pub mod Tree
pub mod Effects
pub mod Corrections
pub mod Service
mod Examples

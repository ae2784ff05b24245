-- ===== src/Debouncer.antt =====
-- src/tasker_rfid/services/debouncer
pub mod Grouping
pub mod Direction
pub mod Service
pub mod Commit
pub mod Config
mod Examples

-- ===== src/Sync.antt =====
-- src/tasker_rfid/services/sync: the local database is copied to a cloud replica.
pub mod Tables
pub mod Read
pub mod Write
pub mod Cycle
pub mod Serial
pub mod Copies
pub mod Growing
pub mod Batches
pub mod Skipped
pub mod Rounds
mod Examples

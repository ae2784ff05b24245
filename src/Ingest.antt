-- ===== src/Ingest.antt =====
-- src/tasker_rfid/services/ingest
pub mod Validation
pub mod Service
mod Examples

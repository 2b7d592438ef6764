-- ===== src/Storage.antt =====
-- storage/repository.py
pub mod Schema
pub mod Turns
pub mod Outbox
pub mod Transcript
pub mod Leases
pub mod Daemon
pub mod Events

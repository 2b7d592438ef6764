-- ===== src/Domain.antt =====
-- domain/
pub mod TurnState
pub mod Cron

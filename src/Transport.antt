-- ===== src/Transport.antt =====
-- transport/discord/
pub mod Reconnect
pub mod Governor

-- ===== src/Security.antt =====
-- security/
pub mod Signing

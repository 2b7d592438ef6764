-- ===== src/Application.antt =====
-- application/
pub mod Volatile
pub mod Occurrences

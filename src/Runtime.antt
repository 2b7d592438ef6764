-- ===== src/Runtime.antt =====
-- runtime/
pub mod EventPump
pub mod Mailbox

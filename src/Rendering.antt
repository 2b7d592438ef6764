-- ===== src/Rendering.antt =====
-- rendering/discord.py: how a text is cut into Discord messages.
pub mod Graphemes
pub mod Links
pub mod Split

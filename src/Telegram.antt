-- ===== src/Telegram.antt =====
-- What the bot knows of its group: src/szs_hub/telegram.
pub mod Members

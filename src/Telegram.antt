-- ===== src/Telegram.antt =====
-- services/telegram_control/src/nexocrypto_telegram_control: the bot that takes a click on a button.
pub mod Texts
pub mod Control

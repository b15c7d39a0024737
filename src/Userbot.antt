-- ===== src/Userbot.antt =====
-- userbot/: the ingestion of messages, and the watchdog of the MTProto session.
pub mod Media
pub mod Ingest
pub mod Listening
pub mod Watchdog

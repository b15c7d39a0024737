-- ===== src/Bot.antt =====
-- bot/: the draft cards, their buttons, and the `publish`, `post_draft` and `alert` jobs.
pub mod Cards
pub mod Send
pub mod Publisher
pub mod Callbacks
pub mod Draft
pub mod Commands

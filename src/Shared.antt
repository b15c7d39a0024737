-- ===== src/Shared.antt =====
-- shared/: what the services have in common beside the tables.
pub mod Transform
pub mod Watermark
pub mod Fingerprint
pub mod Health
pub mod Origins

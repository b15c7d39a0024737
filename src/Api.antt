-- ===== src/Api.antt =====
-- api/: the back-office in Python: its decisions on posts, its administrators and its vocabulary.
pub mod Schemas
pub mod Queue
pub mod Auth
pub mod Admins
pub mod Tags
pub mod SourceChannels
pub mod Templates
pub mod Seeds
pub mod Pages
pub mod Audit
pub mod Metrics

-- ===== src/Services/Courses.antt =====
-- The services together, and the course of one post (shared/enums.py PostState and the message it was published as).
use telegram_cms.World.{World}
use telegram_cms.Env.{Env}
use telegram_cms.Lifecycle.Follows.{Follows}

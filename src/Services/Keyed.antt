-- ===== src/Services/Keyed.antt =====
-- The services together, and the keys of the table of posts.
use telegram_cms.Prelude.{List}
use telegram_cms.World.{World}
use telegram_cms.World.Keyed.{IsKeyed}
use telegram_cms.Env.{Env}
use telegram_cms.Lifecycle.Keyed.{IsKeyed-Allows}
use telegram_cms.Services.{Event, run}
use telegram_cms.Services.Kept.{run_kept}

-- Where no two posts have the same id and no two the same channel and message, and each id is below the next
-- one, this stays so through every sequence of starts of the userbot, new messages, normalize, publish and draft
-- jobs, boots of the worker, prunings, pressed buttons, decisions, edits of tags, requests on channels, tags,
-- templates and administrators, seedings and logins, whether they return or raise.
pub run-IsKeyed :
    (e : Env) (events : List Event) (w : World) → IsKeyed w.db → IsKeyed (run e events w).db
run-IsKeyed e events w k = run_kept IsKeyed IsKeyed-Allows e events w k

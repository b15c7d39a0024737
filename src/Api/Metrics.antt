-- ===== src/Api/Metrics.antt =====
-- api/metrics.py: which requests are counted, and the depths of the queues, which shared/tasks.py reads.
use telegram_cms.Prelude.{
  ℕ, ◌+◌, Text, codes, text_eq, Bool, true, false, Option, List, [], ◌∷◌, ◌++◌, any, count, keep,
  length, arith, ◌≡◌, refl, opt_or, if◌then◌else◌,
}
use telegram_cms.World.{World, Exec, up, Queue, worker, bot, Job, ok, pure, ◌>>=◌}

abbrev is_on : Queue → Queue → Bool
is_on worker worker = true
is_on worker bot = false
is_on bot worker = false
is_on bot bot = true

-- `ZCARD` of the queue, or 0 where Redis raises.
unfoldable pub queued_job_count : Queue → Exec ℕ
queued_job_count q w = elim w.redis [
  | up ↦ (ok (count (λ (j : Job). is_on q j.queue) w.jobs), record w { pool = true })
  | _ ↦ (ok 0, w)
]

-- The gauges by the queues' names.
unfoldable pub refresh_queue_depths : Exec (List (Text × ℕ))
unfolding queued_job_count
refresh_queue_depths = do
  n ← queued_job_count worker
  m ← queued_job_count bot
  pure ((codes "worker", n) ∷ (codes "bot", m) ∷ [])

-- `_EXEMPT_PATHS`
abbrev pub exempt_paths : List Text
exempt_paths =
    codes "/metrics"
    ∷ codes "/healthz"
    ∷ codes "/openapi.json"
    ∷ codes "/docs"
    ∷ codes "/docs/oauth2-redirect"
    ∷ []

-- `getattr(route, "path", None) or "unmatched"`
abbrev pub route_template : Option Text → Text
route_template path = opt_or path (codes "unmatched")

-- What a counter holds: the requests by their labels.
pub record Labels : Type 0 where
  pub method : Text
  pub route : Text
  pub status : Text

-- `MetricsMiddleware.dispatch`, after the response.
unfoldable pub counted : Text → Text → Option Text → Text → List Labels → List Labels
counted path method route status requests =
    if any (text_eq path) exempt_paths
    then requests
    else requests
      ++ (record { method = method; route = route_template route; status = status } ∷ [])

both_queues :
    (js : List Job)
    → count (λ (j : Job). is_on worker j.queue) js + count (λ (j : Job). is_on bot j.queue) js
      ≡ length js
both_queues [] = refl
both_queues (j ∷ js) = on j.queue (both_queues js)
  where
    ws : List Job
    ws = keep (λ (k : Job). is_on worker k.queue) js

    bs : List Job
    bs = keep (λ (k : Job). is_on bot k.queue) js

    on :
        (q : Queue)
        → length ws + length bs ≡ length js
        → length (if is_on worker q then j ∷ ws else ws)
            + length (if is_on bot q then j ∷ bs else bs)
          ≡ length (j ∷ js)
    on worker h = omega (arith, h)
    on bot h = omega (arith, h)

-- Where Redis answers, the two depths are those of all the jobs that wait.
pub refresh_queue_depths-up :
    (w : World)
    → w.redis ≡ up
    → (n : ℕ) × (m : ℕ) × ((refresh_queue_depths w).0
        ≡ ok ((codes "worker", n) ∷ (codes "bot", m) ∷ []))
      × (n + m ≡ length w.jobs)
unfolding refresh_queue_depths queued_job_count
refresh_queue_depths-up w answers = (
  count (λ (j : Job). is_on worker j.queue) w.jobs,
  count (λ (j : Job). is_on bot j.queue) w.jobs,
  rw answers refl,
  both_queues w.jobs,
)

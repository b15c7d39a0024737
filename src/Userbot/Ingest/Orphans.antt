-- ===== src/Userbot/Ingest/Orphans.antt =====
-- Which of the posts without media the reconcile at the start queues again.
use telegram_cms.Prelude.{
  ℕ, ◌≤◌, Bool, true, false, none, List, [], ◌∷◌, ◌++◌, arith, ◌≡◌, ap, inl, inr, keep, count, any,
  any-append, leb, ◌==◌,
}
use telegram_cms.Models.{Post}
use telegram_cms.World.{
  World, up, Job, JobCall, normalize, worker, ok, enqueue_job, enqueue_normalize,
}
use telegram_cms.Worker.Reconcile.{sort_posts}
use telegram_cms.Worker.Reconcile.Requeue.{sort_posts-IsSorted, jobs_for, requeue_all-jobs}
use telegram_cms.Worker.Reconcile.Earliest.{
  Has, keep-Has, sort_posts-Has, count-sort_posts, take-Has,
}
use telegram_cms.Userbot.Ingest.{is_orphan, orphans, reconcile_pending}

abbrev pub normalize_job : ℕ → Job
normalize_job i = record { call = normalize i; queue = worker; defer_by = none }

enqueue_normalize-up :
    (i : ℕ) (v : World)
    → v.redis ≡ up
    → enqueue_normalize i v
      ≡ (ok tt, record v { pool = true; jobs = v.jobs ++ (normalize_job i ∷ []) })
unfolding enqueue_job
enqueue_normalize-up i v answers = ground (arith, answers)

abbrev pub normalizes : ℕ → Job → Bool
normalizes i j = is_normalize j.call
  where
    is_normalize : JobCall → Bool
    is_normalize (normalize k) = k == i
    is_normalize _ = false

normalizes-jobs_for :
    (p : Post) (ps : List Post)
    → Has p ps
    → any (normalizes p.id) (jobs_for normalize_job ps) ≡ true
normalizes-jobs_for p [] h = elim h [ ]
normalizes-jobs_for p (q ∷ qs) (inl e) = ground (arith, ap (λ (r : Post). r.id) e)
normalizes-jobs_for p (q ∷ qs) (inr h) = ground (arith, normalizes-jobs_for p qs h)

-- A post that is pending without media for five minutes at least is queued for normalization again at the
-- start, if Redis is up and at most 200 such posts, itself among them, were received no later than it.
pub reconcile_pending-normalizes :
    (w : World) (p : Post)
    → w.redis ≡ up
    → Has p w.db.posts
    → is_orphan w.now p ≡ true
    → count (λ (q : Post). leb q.received_at p.received_at) (keep (is_orphan w.now) w.db.posts)
      ≤ 200
    → any (normalizes p.id) (reconcile_pending w).1.jobs ≡ true
unfolding reconcile_pending orphans
reconcile_pending-normalizes w p answers there orphan few =
    let key = λ (q : Post). q.received_at in
    let found = keep (is_orphan w.now) w.db.posts in
    let queued =
      requeue_all-jobs enqueue_normalize normalize_job enqueue_normalize-up (orphans w) 0 w
        answers in
    let first =
      take-Has key p 200 (sort_posts key found) (sort_posts-IsSorted key found)
        (sort_posts-Has key p found (keep-Has (is_orphan w.now) p w.db.posts orphan there))
        (rw (count-sort_posts key (λ (q : Post). leb q.received_at p.received_at) found) few) in
    rw queued.1 (
      ground (
        arith,
        any-append (normalizes p.id) w.jobs (jobs_for normalize_job (orphans w)),
        normalizes-jobs_for p (orphans w) first,
      ))

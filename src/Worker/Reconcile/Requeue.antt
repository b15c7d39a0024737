-- ===== src/Worker/Reconcile/Requeue.antt =====
-- What the reconcile at boot queues.
use telegram_cms.Prelude.{
  ℕ, zero, suc, ◌+◌, ◌≤◌, Bool, true, none, List, [], ◌∷◌, ◌++◌, arith, ◌≡◌, keep, take, length,
  All, Bool-cases, inl, inr, sym, append_assoc, append-nil, ap, ◌∙◌,
}
use telegram_cms.Models.{Post}
use telegram_cms.World.{World, up, Job, Exec, publish, bot, ok, enqueue_job, enqueue_publish}
use telegram_cms.Worker.Reconcile.{insert_post, sort_posts, requeue_all}

-- Oldest first.
abbrev pub IsSorted : (Post → ℕ) → List Post → Type 0
IsSorted key [] = Unit
IsSorted key (p ∷ []) = Unit
IsSorted key (p ∷ q ∷ qs) = (key p ≤ key q) × IsSorted key (q ∷ qs)

insert_post-IsSorted :
    (key : Post → ℕ) (p : Post) (qs : List Post)
    → IsSorted key qs
    → IsSorted key (insert_post key p qs)
unfolding insert_post
insert_post-IsSorted key p [] h = tt
insert_post-IsSorted key p (q ∷ []) h = ground arith
insert_post-IsSorted key p (q ∷ r ∷ rs) h = ground (arith, h, insert_post-IsSorted key p (r ∷ rs))

pub sort_posts-IsSorted : (key : Post → ℕ) (ps : List Post) → IsSorted key (sort_posts key ps)
unfolding sort_posts
sort_posts-IsSorted key [] = tt
sort_posts-IsSorted key (p ∷ ps) = insert_post-IsSorted key p _ (sort_posts-IsSorted key ps)

pub take-IsSorted :
    (key : Post → ℕ) (n : ℕ) (ps : List Post) → IsSorted key ps → IsSorted key (take n ps)
take-IsSorted key zero ps h = tt
take-IsSorted key (suc n) [] h = tt
take-IsSorted key (suc zero) (p ∷ ps) h = tt
take-IsSorted key (suc (suc n)) (p ∷ []) h = tt
take-IsSorted key (suc (suc n)) (p ∷ q ∷ qs) h = (h.0, take-IsSorted key (suc n) (q ∷ qs) h.1)

module _ (test : Post → Bool) where
  abbrev pub Passes : Post → Type 0
  Passes p = test p ≡ true

  insert_post-All :
      (key : Post → ℕ) (p : Post) (qs : List Post)
      → test p ≡ true
      → All Passes qs
      → All Passes (insert_post key p qs)
  unfolding insert_post
  insert_post-All key p [] k h = (k, tt)
  insert_post-All key p (q ∷ qs) k h = ground (arith, k, h, insert_post-All key p qs k)

  pub sort_posts-All :
      (key : Post → ℕ) (ps : List Post) → All Passes ps → All Passes (sort_posts key ps)
  unfolding sort_posts
  sort_posts-All key [] h = tt
  sort_posts-All key (p ∷ ps) h = insert_post-All key p _ h.0 (sort_posts-All key ps h.1)

  pub take-All : (n : ℕ) (ps : List Post) → All Passes ps → All Passes (take n ps)
  take-All zero ps h = tt
  take-All (suc n) [] h = tt
  take-All (suc n) (p ∷ ps) h = (h.0, take-All n ps h.1)

  pub keep-All : (ps : List Post) → All Passes (keep test ps)
  keep-All [] = tt
  keep-All (p ∷ ps) = elim (Bool-cases (test p)) [
    | inl k ↦ rw k (k, keep-All ps)
    | inr k ↦ rw k (keep-All ps)
  ]

-- A job for each post.
abbrev pub jobs_for : (ℕ → Job) → List Post → List Job
jobs_for job [] = []
jobs_for job (p ∷ ps) = job p.id ∷ jobs_for job ps

-- A publish job at once.
abbrev pub publish_job : ℕ → Job
publish_job i = record { call = publish i; queue = bot; defer_by = none }

pub requeue_all-jobs :
    (enqueue : ℕ → Exec (Unit {0})) (job : ℕ → Job)
    → ((i : ℕ) (v : World)
        → v.redis ≡ up
        → enqueue i v ≡ (ok tt, record v { pool = true; jobs = v.jobs ++ (job i ∷ []) }))
    → (ps : List Post) (n : ℕ) (w : World) → w.redis ≡ up
    → ((requeue_all enqueue ps n w).0 ≡ ok (n + length ps))
      × ((requeue_all enqueue ps n w).1.jobs ≡ w.jobs ++ jobs_for job ps)
unfolding requeue_all
requeue_all-jobs enqueue job does [] n w answers = (ap ok (omega arith), sym (append-nil _))
requeue_all-jobs enqueue job does (p ∷ ps) n w answers =
    let rest =
      requeue_all-jobs enqueue job does ps (suc n)
        (record w { pool = true; jobs = w.jobs ++ (job p.id ∷ []) }) answers in
    rw (does p.id w answers)
      (rest.0 ∙ ap ok (omega arith), rest.1 ∙ append_assoc w.jobs (job p.id ∷ []) (jobs_for job ps))

pub enqueue_publish-up :
    (i : ℕ) (v : World)
    → v.redis ≡ up
    → enqueue_publish i none v
      ≡ (ok tt, record v { pool = true; jobs = v.jobs ++ (publish_job i ∷ []) })
unfolding enqueue_job
enqueue_publish-up i v answers = ground (arith, answers)

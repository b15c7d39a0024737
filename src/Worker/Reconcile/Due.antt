-- ===== src/Worker/Reconcile/Due.antt =====
-- What the reconcile at boot queues: every post that is due, the earliest first.
use telegram_cms.Prelude.{
  List, [], ◌∷◌, ℕ, ◌+◌, ◌≤◌, ◌*◌, true, false, Option, none, some, is_some, refl, map-All, ◌++◌,
  arith, ◌≡◌, ◌⊎◌, keep, length, length-take-le, All, ap, ◌∙◌, Bool-cases, inl, inr,
}
use telegram_cms.Enums.{PostState, state_eq}
use telegram_cms.Models.{Post}
use telegram_cms.World.{World, up, ok, enqueue_publish}
use telegram_cms.Worker.Reconcile.{
  is_overdue, in_window, due_time, sort_posts, overdue_posts, reconcile_scheduled,
}
use telegram_cms.Worker.Reconcile.Requeue.{
  IsSorted, sort_posts-IsSorted, take-IsSorted, Passes, sort_posts-All, take-All, keep-All,
  jobs_for, publish_job, requeue_all-jobs, enqueue_publish-up,
}
use telegram_cms.Worker.Reconcile.Earliest.{Has, keep-Has, sort_posts-Has, take_full}

-- Scheduled for a time that has come, 30 days ago at most, and without a message.
pub record IsDue (now : ℕ) (p : Post) : Type 0 where
  pub scheduled : p.state ≡ PostState.scheduled
  pub unsent : p.published_message_id ≡ none
  pub time : (t : ℕ) × (p.scheduled_for ≡ some t) × (t ≤ now) × (now ≤ t + 30 * 86400000)

is_overdue-IsDue : (now : ℕ) (p : Post) → is_overdue now p ≡ true → IsDue now p
unfolding is_overdue
is_overdue-IsDue now p h = record {
  scheduled = scheduled p.state (ground (arith, h));
  unsent = unsent p.published_message_id (ground (arith, h));
  time = due p.scheduled_for (ground (arith, h));
}
  where
    scheduled : (s : PostState) → state_eq s PostState.scheduled ≡ true → s ≡ PostState.scheduled
    scheduled PostState.scheduled k = refl
    scheduled PostState.pending k = absurd (ground (arith, k))
    scheduled PostState.approved k = absurd (ground (arith, k))
    scheduled PostState.published k = absurd (ground (arith, k))
    scheduled PostState.rejected k = absurd (ground (arith, k))
    scheduled PostState.publishing k = absurd (ground (arith, k))
    scheduled PostState.publish_failed k = absurd (ground (arith, k))

    unsent : (o : Option ℕ) → is_some o ≡ false → o ≡ none
    unsent none k = refl
    unsent (some m) k = absurd (ground (arith, k))

    due :
        (o : Option ℕ)
        → in_window now o ≡ true
        → (t : ℕ) × (o ≡ some t) × (t ≤ now) × (now ≤ t + 30 * 86400000)
    due none k = absurd (ground (arith, k))
    due (some t) k = (t, refl, ground (arith, k), ground (arith, k))

IsDue-is_overdue : (now : ℕ) (p : Post) → IsDue now p → is_overdue now p ≡ true
unfolding is_overdue
IsDue-is_overdue now p h =
    let (t, at, begun, recent) = h.time in
    rw (h.scheduled, h.unsent, at) (ground (arith, begun, recent))

Has-All : (P : Post → Type 0) (ps : List Post) → ((p : Post) → Has p ps → P p) → All P ps
Has-All P [] h = tt
Has-All P (p ∷ ps) h = (h p (inl refl), Has-All P ps (λ q k. h q (inr k)))

-- With Redis up the reconcile queues a publish job for each of the posts that it finds, and reports how
-- many they are: they are at most 100, each is scheduled, due for 30 days at most and has no message,
-- and they come in the order of their times; and each such post of the database is among them, or they are 100 that
-- are due no later than it.
pub reconcile_scheduled-overdue :
    (w : World)
    → w.redis ≡ up
    → (reconcile_scheduled w).0 ≡ ok (length (overdue_posts w))
      × ((reconcile_scheduled w).1.jobs ≡ w.jobs ++ jobs_for publish_job (overdue_posts w))
      × (length (overdue_posts w) ≤ 100)
      × All (IsDue w.now) (overdue_posts w)
      × IsSorted due_time (overdue_posts w)
      × All
          (λ (p : Post).
            (¬ IsDue w.now p)
            ⊎ Has p (overdue_posts w)
            ⊎ ((length (overdue_posts w) ≡ 100)
                × All (λ (q : Post). due_time q ≤ due_time p) (overdue_posts w)))
          w.db.posts
unfolding reconcile_scheduled overdue_posts
reconcile_scheduled-overdue w answers =
    let found = keep (is_overdue w.now) w.db.posts in
    let (count, jobs) =
      requeue_all-jobs (λ i. enqueue_publish i none) publish_job enqueue_publish-up
        (overdue_posts w) 0 w answers in
    (
      count ∙ ap ok (omega arith),
      jobs,
      length-take-le 100 _,
      map-All (Passes (is_overdue w.now)) (IsDue w.now) (is_overdue-IsDue w.now) _
          (take-All _ 100 _ (sort_posts-All _ due_time found (keep-All _ w.db.posts))),
      take-IsSorted due_time 100 _ (sort_posts-IsSorted due_time found),
      Has-All _ w.db.posts λ p there. elim (Bool-cases (is_overdue w.now p)) [
        | inl is ↦ inr (
            take_full due_time p 100 (sort_posts due_time found)
              (sort_posts-IsSorted due_time found)
              (sort_posts-Has due_time p found (keep-Has (is_overdue w.now) p w.db.posts is there)))
        | inr not_due ↦ inl (λ due. absurd (ground (arith, IsDue-is_overdue w.now p due, not_due)))
      ],
    )

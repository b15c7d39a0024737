-- ===== src/Worker/Reconcile.antt =====
-- worker/reconcile.py: the reconcile of scheduled posts at boot, and the daily pruning.
pub mod Requeue
pub mod Earliest
pub mod Due
pub mod Retention
use telegram_cms.Prelude.{
  ℕ, suc, ◌+◌, ◌*◌, Text, Bool, true, false, not, ◌&&◌, ◌||◌, Option, none, some, List, [], ◌∷◌,
  ◌++◌, ltb, leb, if◌then◌else◌, keep, take, length, any, text_eq, is_some,
}
use telegram_cms.Enums.{PostState, state_in, state_eq}
use telegram_cms.Models.{Post, PostEvent, PublishedDedupe, days}
use telegram_cms.World.{Db, World, MediaFile, Exec, ◌>>=◌, ◌>>◌, pure, enqueue_publish}
use telegram_cms.Env.{Env}

abbrev pub reconcile_batch : ℕ
reconcile_batch = 100

abbrev pub reconcile_max_age_days : ℕ
reconcile_max_age_days = 30

-- `_MEDIA_RELEVANT_STATES`
abbrev pub media_relevant_states : List PostState
media_relevant_states =
    PostState.pending ∷ PostState.approved ∷ PostState.scheduled ∷ PostState.published ∷ []

abbrev pub in_window : ℕ → Option ℕ → Bool
in_window now none = false
in_window now (some t) = leb t now && leb now (t + days reconcile_max_age_days)

-- The query's conditions.
unfoldable pub is_overdue : ℕ → Post → Bool
is_overdue now p =
    state_eq p.state PostState.scheduled
    && (in_window now p.scheduled_for && not (is_some p.published_message_id))

abbrev pub due_time : Post → ℕ
due_time p = elim p.scheduled_for [ none ↦ 0 | some t ↦ t ]

-- `ORDER BY scheduled_for ASC`
pub insert_post : (Post → ℕ) → Post → List Post → List Post
insert_post key p [] = p ∷ []
insert_post key p (q ∷ qs) = if leb (key p) (key q) then p ∷ q ∷ qs else q ∷ insert_post key p qs

unfoldable pub sort_posts : (Post → ℕ) → List Post → List Post
unfolding insert_post
sort_posts key [] = []
sort_posts key (p ∷ ps) = insert_post key p (sort_posts key ps)

unfoldable pub overdue_posts : World → List Post
unfolding sort_posts is_overdue
overdue_posts w = take reconcile_batch (sort_posts due_time (keep (is_overdue w.now) w.db.posts))

-- The loop over the posts; the count is what it returns.
unfoldable pub requeue_all : (ℕ → Exec (Unit {0})) → List Post → ℕ → Exec ℕ
requeue_all enqueue [] requeued w = pure requeued w
requeue_all enqueue (p ∷ ps) requeued w = (do enqueue p.id; requeue_all enqueue ps (suc requeued)) w

unfoldable pub reconcile_scheduled : Exec ℕ
unfolding overdue_posts requeue_all
reconcile_scheduled w = requeue_all (λ i. enqueue_publish i none) (overdue_posts w) 0 w

-- `published_at >= now - days(dedupe_lookback_days)`: what the pruning leaves.
unfoldable pub prune_dedupe_rows : Env → ℕ → Db → Db
prune_dedupe_rows e now db = record db {
  dedupe =
      keep (λ (d : PublishedDedupe). leb now (d.published_at + days e.dedupe_lookback_days))
        db.dedupe;
}

unfoldable pub prune_audit_events : Env → ℕ → Db → Db
prune_audit_events e now db = record db {
  events = keep (λ (v : PostEvent). leb now (v.created_at + days e.audit_retention_days)) db.events;
}

-- The path or the name is among the media paths of a post in a relevant state.
unfoldable pub is_referenced : Db → MediaFile → Bool
is_referenced db f =
    any (λ (p : Post). any (λ t. text_eq t f.path || text_eq t f.name) p.media_paths)
      (keep (λ (p : Post). state_in p.state media_relevant_states) db.posts)

-- An error of the file system leaves the file and goes on.
unfoldable pub is_removed : Env → ℕ → Db → MediaFile → Bool
unfolding is_referenced
is_removed e now db f =
    f.is_file
    && (ltb (f.mtime + days e.media_retention_days) now
        && (not (is_referenced db f) && f.removable))

-- A directory that is not there has no files.
unfoldable pub prune_media_files : Env → World → List MediaFile
unfolding is_removed
prune_media_files e w = keep (λ f. not (is_removed e w.now w.db f)) w.files

unfoldable pub prune_dedupe : Env → Exec (Unit {0})
unfolding prune_dedupe_rows prune_audit_events prune_media_files
prune_dedupe e w =
    let w' = record w { db = prune_audit_events e w.now (prune_dedupe_rows e w.now w.db) } in
    pure tt (record w' { files = prune_media_files e w' })

-- ===== src/Api/Queue/Effects.antt =====
-- What a decision means for the publisher and for the reconcile.
use telegram_cms.Prelude.{ℕ, false, none, some, arith, ◌≡◌, refl, ◌≢◌}
use telegram_cms.Enums.{PostState}
use telegram_cms.Models.{Admin, Post}
use telegram_cms.World.{
  World, Exn, Redis, up, os_down, client_down, connection_error, redis_error, ok, err, get_post,
  enqueue_job,
}
use telegram_cms.Env.{Env}
use telegram_cms.Bot.Publisher.{publish, already_published}
use telegram_cms.Bot.Publisher.Guards.{publish-IsSettled, sent}
use telegram_cms.Bot.Publisher.Stages.{get_post-update}
use telegram_cms.Worker.Reconcile.{is_overdue}
use telegram_cms.Api.Queue.{decide, approve}

module _ (i : ℕ) (actor : Admin) (w : World) (p : Post) (found : get_post i w.db ≡ some p) where
  pub approve-row :
      get_post i (approve i none actor w).1.db
      ≡ some (record p { state = PostState.approved; scheduled_for = none })
  unfolding approve decide enqueue_job
  approve-row = ground (
    arith,
    found,
    get_post-update i
        (λ q. record q { tag_ids = p.tag_ids; state = PostState.approved; scheduled_for = none })
        w.db.posts p (λ q. refl) found,
  )

  -- An approval of a post that has a message makes it approved again, and the publish job then leaves it
  -- so: the row no longer says that the post is published.
  pub publish-approve_published :
      (e : Env) (m : ℕ)
      → p.published_message_id ≡ some m
      → let w' = (approve i none actor w).1 in
        (publish e i w' ≡ (ok already_published, w'))
        × ((q : Post) × (get_post i w'.db ≡ some q) × (q.state ≡ PostState.approved))
  publish-approve_published e m has =
      let q = record p { state = PostState.approved; scheduled_for = none } in
      (
        publish-IsSettled e i (approve i none actor w).1 q already_published approve-row
            (sent m has),
        (q, approve-row, refl),
      )

  -- An approval while Redis is down raises, and yet the post is approved with no job queued; and the
  -- reconcile of scheduled posts does not ask for it at any time.
  pub approve_unqueued :
      w.redis ≢ up
      → (now : ℕ)
      → let w' = (approve i none actor w).1 in
        ((x : Exn) × ((approve i none actor w).0 ≡ err x))
        × (w'.jobs ≡ w.jobs)
        × ((q : Post) × (get_post i w'.db ≡ some q)
            × (q.state ≡ PostState.approved)
            × (is_overdue now q ≡ false))
  unfolding approve decide enqueue_job is_overdue
  approve_unqueued down now = (
    raised w.redis refl,
    ground (arith, found, down),
    (record p { state = PostState.approved; scheduled_for = none }, approve-row, refl, refl),
  )
    where
      raised : (r : Redis) → w.redis ≡ r → (x : Exn) × ((approve i none actor w).0 ≡ err x)
      raised up e = absurd (down e)
      raised os_down e = (connection_error, ground (arith, found, e))
      raised client_down e = (redis_error, ground (arith, found, e))

-- ===== src/Api/Queue/Decisions.antt =====
-- What each decision writes and queues, and that an error writes nothing.
use telegram_cms.Prelude.{
  ℕ, ◌-◌, ◌+◌, ◌<◌, Option, none, some, List, [], ◌∷◌, ◌++◌, arith, ◌≡◌, refl, String, or_else,
}
use telegram_cms.Enums.{PostState}
use telegram_cms.Models.{Admin, Post}
use telegram_cms.World.{World, up, publish, bot, http, err, get_post, enqueue_job}
use telegram_cms.Bot.Publisher.Stages.{get_post-update}
use telegram_cms.Api.Queue.{PostDecision, decide, approve, schedule}

-- A decision that is answered with an HTTP error has written and queued nothing.
pub decide_http_error :
    (i : ℕ) (d : PostDecision) (actor : Admin) (w : World) (status : ℕ) (detail : String)
    → (decide i d actor w).0 ≡ err (http status detail)
    → (decide i d actor w).1 ≡ w
unfolding decide enqueue_job
decide_http_error i d actor w status detail failed = ground (arith, failed)

module _ (i : ℕ) (actor : Admin) (w : World) (p : Post) (found : get_post i w.db ≡ some p)
    (answers : w.redis ≡ up) where
  -- An approval makes the post approved with no time, with the given tags or its own, and queues one
  -- publish job at once.
  pub approve_lem :
      (tags : Option (List ℕ))
      → let w' = (approve i tags actor w).1 in
        (get_post i w'.db
          ≡ some (record p {
            tag_ids = or_else tags p.tag_ids;
            state = PostState.approved;
            scheduled_for = none;
          }))
        × (w'.jobs ≡ w.jobs ++ (record { call = publish i; queue = bot; defer_by = none } ∷ []))
  unfolding approve decide enqueue_job
  approve_lem tags = ground (
    arith,
    found,
    answers,
    get_post-update i
        (λ q. record q {
          tag_ids = or_else tags p.tag_ids;
          state = PostState.approved;
          scheduled_for = none;
        })
        w.db.posts p (λ q. refl) found,
  )

  -- A time to come schedules the post with that time, and the one job that is queued, a publish job, is
  -- deferred to that time.
  pub schedule_lem :
      (t : ℕ)
      → w.now < t
      → let w' = (schedule i t actor w).1 in
        (get_post i w'.db ≡ some (record p { state = PostState.scheduled; scheduled_for = some t }))
        × ((delay : ℕ) × (w'.jobs
              ≡ w.jobs ++ (record { call = publish i; queue = bot; defer_by = some delay } ∷ []))
            × (w.now + delay ≡ t))
  unfolding schedule decide enqueue_job
  schedule_lem t later = (
    ground (
      arith,
      found,
      answers,
      get_post-update i
          (λ q. record q {
            tag_ids = p.tag_ids;
            state = PostState.scheduled;
            scheduled_for = some t;
          })
          w.db.posts p (λ q. refl) found,
    ),
    (t - w.now, ground (arith, found, answers), omega arith),
  )

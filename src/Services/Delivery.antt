-- ===== src/Services/Delivery.antt =====
-- An approval (api/routers/queue.py), and then the publish job that it queues (bot/publisher.py).
use telegram_cms.Prelude.{ℕ, suc, true, none, some, List, [], ◌∷◌, ◌++◌, arith, ◌≡◌, ap, ◌∙◌}
use telegram_cms.Enums.{PostState}
use telegram_cms.Models.{Admin, Post}
use telegram_cms.World.{
  Db, World, Reply, delivered, Job, publish, bot, up, get_post, get_channel, enqueue_job,
}
use telegram_cms.Env.{Env}
use telegram_cms.Bot.Publisher
use telegram_cms.Bot.Publisher.Answered.{is_answered}
use telegram_cms.Bot.Publisher.Delivered.{
  IsReady, IsDelivered, IsDelivered-from, publish-IsDelivered,
}
use telegram_cms.Api.Queue.{decide, approve}
use telegram_cms.Api.Queue.Effects.{approve-row}

abbrev pub approved_post : Post → Post
approved_post p = record p { state = PostState.approved; scheduled_for = none }

abbrev pub publish_job : ℕ → Job
publish_job i = record { call = publish i; queue = bot; defer_by = none }

-- What an approval leaves for the job that it queues.
record IsApproved (i : ℕ) (w w' : World) : Type 0 where
  pub jobs : w'.jobs ≡ w.jobs ++ (publish_job i ∷ [])
  pub channels : w'.db.channels ≡ w.db.channels
  pub replies : w'.replies ≡ w.replies
  pub sent : w'.sent ≡ w.sent

module _ (i : ℕ) (actor : Admin) (w : World) (p : Post) (found : get_post i w.db ≡ some p) where
  approve-IsApproved : w.redis ≡ up → IsApproved i w (approve i none actor w).1
  unfolding approve decide enqueue_job
  approve-IsApproved answers = record {
    jobs = ground (arith, found, answers);
    channels = ground (arith, found, answers);
    replies = ground (arith, found, answers);
    sent = ground (arith, found, answers);
  }

IsReady-in :
    (e : Env) (p : Post) (a b : Db) → b.channels ≡ a.channels → IsReady e p a → IsReady e p b
IsReady-in e p a b channels h = record {
  opened = h.opened;
  channel = (
    h.channel.0,
    ap (λ cs. get_channel p.source_channel_id (record a { channels = cs })) channels ∙ h.channel.1,
  );
  plain = h.plain;
  unhashed = h.unhashed;
}

-- Where Redis answers, the approval of a post without a message, a hash (it was not normalized yet) and media to send,
-- whatever its state was, queues its publish job; and where its channel is there and Telegram takes the text and
-- answers one call more, that job delivers it: the row is published with the message's id, and the text was the first
-- thing sent.
pub approve-publish :
    (e : Env) (i m : ℕ) (actor : Admin) (w : World) (p : Post) (r : Reply) (rest : List Reply)
    → get_post i w.db ≡ some p
    → w.redis ≡ up
    → IsReady e (approved_post p) w.db
    → w.replies ≡ delivered (suc m) ∷ r ∷ rest
    → is_answered r ≡ true
    → let w' = (approve i none actor w).1 in
      (w'.jobs ≡ w.jobs ++ (publish_job i ∷ []))
      × IsDelivered e i m (approved_post p) w (Publisher.publish e i w')
approve-publish e i m actor w p r rest found answers ready replies answered =
    let w' = (approve i none actor w).1 in
    let left = approve-IsApproved i actor w p found answers in
    (
      left.jobs,
      IsDelivered-from e i m (approved_post p) w w' _ left.sent (
          publish-IsDelivered e i m w' (approved_post p) r rest (approve-row i actor w p found)
            (IsReady-in e (approved_post p) w.db w'.db left.channels ready) (left.replies ∙ replies)
            answered),
    )

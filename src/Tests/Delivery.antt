-- ===== src/Tests/Delivery.antt =====
-- A post of the sample installation that was not normalized, on its way to the destination channel.
use telegram_cms.Models.{Post}
use telegram_cms.Prelude.{none, [], ◌∷◌, ◌++◌, refl, ◌≡◌}
use telegram_cms.World.{World, delivered, refused, telegram_api}
use telegram_cms.Bot.Publisher.{publish}
use telegram_cms.Bot.Send.{sendable}
use telegram_cms.Bot.Publisher.Delivered.{IsReady, IsDelivered, publish-IsDelivered}
use telegram_cms.Api.Queue.{approve}
use telegram_cms.Services.Delivery.{approved_post, publish_job, approve-publish}
use telegram_cms.Models.{Post}
use telegram_cms.Tests.Samples.{db, env, world, post, channel, boss}

abbrev raw : Post
raw = record post { dedupe_hash = none }

abbrev answering : World
answering = record world {
  db = record db { posts = raw ∷ [] };
  replies = delivered 77 ∷ refused (telegram_api []) ∷ [];
}

ready : IsReady env raw answering.db
unfolding sendable
ready = record { opened = (refl, refl); channel = (channel, refl); plain = refl; unhashed = refl }

publish-IsDelivered_example : IsDelivered env 5 76 raw answering (publish env 5 answering)
publish-IsDelivered_example =
    publish-IsDelivered env 5 76 answering raw (refused (telegram_api [])) [] refl ready refl refl

approve-publish_example :
    ((approve 5 none boss answering).1.jobs ≡ answering.jobs ++ (publish_job 5 ∷ []))
    × IsDelivered env 5 76
        (approved_post raw)
        answering
        (publish env 5 (approve 5 none boss answering).1)
approve-publish_example =
    approve-publish env 5 76 boss answering raw (refused (telegram_api [])) [] refl refl ready refl
      refl

-- ===== src/Tests/Buttons.antt =====
-- The buttons of a card and the job that posts it, run on the sample installation.
use telegram_cms.Prelude.{pos, negsuc, true, some, [], ◌∷◌, codes, ◌≡◌, refl, ◌⊎◌}
use telegram_cms.Enums.{PostState}
use telegram_cms.World.{World, Reply, telegram_api, err, get_post}
use telegram_cms.Bot.Callbacks.{CallbackQuery, authorized, cb_approve, cb_reject}
use telegram_cms.Bot.Callbacks.Press.{MayPress, cb_authorized, cb_approve_unanswered}
use telegram_cms.Tests.Samples.{env, world, post, channel}

abbrev button : CallbackQuery
button = record { chat = some (negsuc 7); from_user = pos 42; data_id = some 5 }

-- The same button, forwarded to a private chat.
abbrev forwarded : CallbackQuery
forwarded = record button { chat = some (pos 42) }

press_passes : authorized env button world.db ≡ true
unfolding authorized
press_passes = refl

cb_authorized_example :
    MayPress env forwarded world.db
    ⊎ (((cb_approve env forwarded world).1.db ≡ world.db)
        × ((cb_approve env forwarded world).1.jobs ≡ world.jobs)
        × ((cb_reject env forwarded world).1.db ≡ world.db)
        × ((cb_reject env forwarded world).1.jobs ≡ world.jobs))
cb_authorized_example = cb_authorized env forwarded world

-- Telegram finds the query too old.
abbrev too_old : World
too_old = record world { replies = Reply.refused (telegram_api (codes "query is too old")) ∷ [] }

cb_approve_unanswered_example :
    let w' = (cb_approve env button too_old).1 in
    ((cb_approve env button too_old).0 ≡ err (telegram_api (codes "query is too old")))
    × (get_post 5 w'.db ≡ some (record post { state = PostState.approved }))
    × (w'.jobs ≡ [])
cb_approve_unanswered_example =
    cb_approve_unanswered env button too_old 5 post channel press_passes refl refl refl
      (telegram_api (codes "query is too old")) [] refl

abbrev two_answers : World
two_answers = record world { replies = Reply.delivered 9 ∷ Reply.delivered 1 ∷ [] }

-- ===== src/Tests/Publishing.antt =====
-- The publisher's theorems at concrete posts.
use telegram_cms.Prelude.{◌≡◌, refl, true, false, some, [], ◌∷◌, codes, inl, ◌⊎◌}
use telegram_cms.Enums.{PostState}
use telegram_cms.World.{bot_call, World, Exn, network_error, ok, err, get_post}
use telegram_cms.Bot.Send.{send_post}
use telegram_cms.Bot.Publisher.{
  reserve_dedupe, send_spaced, duplicate, publish, skip, has_hash, dedupe_exists,
}
use telegram_cms.Bot.Publisher.Guards.{publish-IsSettled, closed}
use telegram_cms.Bot.Publisher.Failed.{
  publish-reserved, publish-send_fails, publish_twice-unrecorded,
}
use telegram_cms.Bot.Publisher.Raises.{sending, with_state}
use telegram_cms.Bot.Publisher.Ways.{is_reserved}
use telegram_cms.Bot.Publisher.Race.{
  Jobs, Reach, here, next, check, start, Reach-delivered_once, to, checked,
}
use telegram_cms.Tests.Samples.{world, db, post, channel, env}

abbrev settled : World
settled = record world {
  db = record db { posts = record post { state = PostState.rejected } ∷ [] };
}

publish-IsSettled_example : publish env 5 settled ≡ (ok (skip PostState.rejected), settled)
publish-IsSettled_example =
    publish-IsSettled env 5 settled (record post { state = PostState.rejected })
      (skip PostState.rejected) refl (closed refl (inl refl))

abbrev taken : World
taken = record world {
  db = record db { dedupe = record { hash = codes "h"; published_at = 0 } ∷ [] };
}

publish-reserved_example :
    ((publish env 5 taken).0 ≡ ok duplicate)
    × (get_post 5 (publish env 5 taken).1.db ≡ some (with_state post PostState.rejected))
    × ((publish env 5 taken).1.sent ≡ taken.sent)
    × ((publish env 5 taken).1.replies ≡ taken.replies)
publish-reserved_example = publish-reserved env 5 taken post channel refl (refl, refl) refl refl

abbrev offline : World
offline = record world { replies = [] }

offline_fails : (sending env 5 post offline).0 ≡ err network_error
unfolding send_spaced send_post bot_call reserve_dedupe
offline_fails = refl

publish-send_fails_example :
    ((y : Exn) × ((publish env 5 offline).0 ≡ err y))
    × (get_post 5 (publish env 5 offline).1.db ≡ some (with_state post PostState.publish_failed))
    × (is_reserved (some (codes "h")) (publish env 5 offline).1.db ≡ false)
publish-send_fails_example =
    publish-send_fails env 5 offline post channel refl (refl, refl) refl refl network_error
      offline_fails

online_sends : (sending env 5 post world).0 ≡ ok 77
unfolding send_spaced send_post bot_call reserve_dedupe
online_sends = refl

publish_twice-unrecorded_example :
    let w' = (publish env 5 world).1 in
    ((publish env 5 w').0 ≡ ok duplicate)
    × (get_post 5 (publish env 5 w').1.db ≡ some (with_state post PostState.rejected))
    × ((publish env 5 w').1.sent ≡ w'.sent)
    × ((publish env 5 w').1.replies ≡ w'.replies)
publish_twice-unrecorded_example =
    publish_twice-unrecorded env 5 world post channel refl (refl, refl) refl refl refl refl 76
      online_sends

-- Two jobs pass the check; the first insert wins.
abbrev two : Jobs
two = to (to (start db) 0 checked) 1 checked

two_checked : Reach (codes "h") (start db) two
unfolding dedupe_exists
two_checked = next (next here (check (start db) 0 refl)) (check (to (start db) 0 checked) 1 refl)

Reach-delivered_once_example :
    (two.delivered ≡ 0) ⊎ ((two.delivered ≡ 1) × (has_hash (codes "h") two.db.dedupe ≡ true))
Reach-delivered_once_example = Reach-delivered_once (codes "h") db two two_checked

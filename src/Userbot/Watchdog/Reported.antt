-- ===== src/Userbot/Watchdog/Reported.antt =====
-- What a healthy answer of the userbot says of its session.
use telegram_cms.Prelude.{
  ℕ, ◌+◌, ◌≤◌, Text, codes, true, Option, none, some, is_some, Option-cases, inl, inr, not, [], ◌∷◌,
  ◌&&◌, arith, ◌≡◌,
}
use telegram_cms.Env.{Env}
use telegram_cms.Shared.Health.{answered, Response, healthz}
use telegram_cms.Shared.Health.Status.{healthz-status}
use telegram_cms.Userbot.Watchdog.{Liveness, is_mtproto_healthy, healthy_since, stale_after}

-- `/healthz` of the userbot, with the check that its start registers.
unfoldable pub userbot_healthz : Env → ℕ → Liveness → Option Text → Option Text → Response
userbot_healthz e now live db redis =
    healthz db redis
      (record { name = codes "mtproto"; result = answered (is_mtproto_healthy e now live) } ∷ [])

healthy-last_ok :
    (e : Env) (now : ℕ) (live : Liveness)
    → (is_mtproto_healthy e now live).0 ≡ true
    → (live.connected ≡ true)
      × (live.authorized ≡ true)
      × ((t : ℕ) × (live.last_ok ≡ some t) × (now ≤ t + stale_after))
unfolding is_mtproto_healthy healthy_since
healthy-last_ok e now live h = elim (Option-cases live.last_ok) [
  | inl never ↦ absurd (ground (arith, h, never))
  | inr (t, at) ↦ (ground (arith, h), ground (arith, h), (t, at, ground (arith, h, at)))
]

-- Where the userbot answers with status 200, the database and Redis were reached, its session was connected and
-- authorized, and a probe of the session succeeded within the last ninety seconds.
pub userbot_healthz-last_ok :
    (e : Env) (now : ℕ) (live : Liveness) (db redis : Option Text)
    → (userbot_healthz e now live db redis).status ≡ 200
    → (db ≡ none)
      × (redis ≡ none)
      × (live.connected ≡ true)
      × (live.authorized ≡ true)
      × ((t : ℕ) × (live.last_ok ≡ some t) × (now ≤ t + stale_after))
unfolding userbot_healthz
userbot_healthz-last_ok e now live db redis ok =
    let (connected, authorized, since) = healthy-last_ok e now live (ground (arith, all_good)) in
    (ground (arith, all_good), ground (arith, all_good), connected, authorized, since)
  where
    all_good :
        (not (is_some db) && (not (is_some redis) && ((is_mtproto_healthy e now live).0 && true)))
        ≡ true
    all_good = ground (
      arith,
      ok,
      healthz-status db redis (
          record { name = codes "mtproto"; result = answered (is_mtproto_healthy e now live) }
          ∷ []),
    )

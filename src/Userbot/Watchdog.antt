-- ===== src/Userbot/Watchdog.antt =====
-- userbot/main.py: the liveness of the MTProto session, and the watchdog that probes it.
pub mod Alerts
pub mod Failures
pub mod Reported
use telegram_cms.Prelude.{
  ℕ, zero, suc, ◌+◌, ◌-◌, ◌*◌, ◌^◌, min, ltb, Text, codes, Bool, true, false, Option, none, some,
  List, [], ◌∷◌, ◌++◌, if◌then◌else◌, text_or,
}
use telegram_cms.World.{World, Exec, pure, try_except, enqueue_alert}
use telegram_cms.Env.{Env}

-- The module's variables.
pub record Liveness : Type 0 where
  pub connected : Bool
  pub authorized : Bool
  pub last_ok : Option ℕ
  pub failure_count : ℕ
  pub failure_reason : Text

-- What the client raises: one of `_FATAL_ERRORS`, a flood wait, or another error, by its class.
pub data ClientError : Type 0 where
  fatal : Text → ClientError
  flood_wait : ℕ → ClientError
  other : Text → ClientError

pub data Answer : Type 0 where
  returned : Bool → Answer
  raised : ClientError → Answer

-- What the client's three calls answer, if they are made; what `get_me` returns is not used.
pub record Probe : Type 0 where
  pub is_connected : Answer
  pub is_user_authorized : Answer
  pub get_me : Answer

-- `_WATCHDOG_INTERVAL_SECONDS`, and `_WATCHDOG_STALE_SECONDS` in milliseconds.
abbrev pub interval : ℕ
interval = 30

abbrev pub stale_after : ℕ
stale_after = interval * 3 * 1000

abbrev pub unhealthy : Text → Bool × Text
unhealthy reason = (false, reason)

healthy_since : Env → ℕ → Liveness → Option ℕ → Bool × Text
healthy_since e now s none = (false, codes "never_checked")
healthy_since e now s (some t) =
    if ltb (t + stale_after) now
    then (
      false,
      codes "stale:"
          ++ (e.show_seconds (now - t)
              ++ (codes "s (" ++ (text_or s.failure_reason (codes "stale") ++ codes ")"))),
    )
    else (true, codes "ok")

unfoldable pub is_mtproto_healthy : Env → ℕ → Liveness → Bool × Text
unfolding healthy_since
is_mtproto_healthy e now s =
    if s.connected
    then (if s.authorized then healthy_since e now s s.last_ok else (false, codes "unauthorized"))
    else (false, codes "disconnected")

-- The seconds to sleep after this many failures in a row.
abbrev pub backoff : ℕ → ℕ
backoff zero = interval
backoff (suc k) = min (interval * 2 ^ min k 4) 300

abbrev count_failure : Text → Liveness → Liveness
count_failure reason s = record s { failure_count = suc s.failure_count; failure_reason = reason }

-- The body of the `try`: the state it leaves, and what it raises.
check_me : ℕ → Answer → Liveness → Liveness × Option ClientError
check_me now (raised x) s = (s, some x)
check_me now (returned _) s =
    (record s { last_ok = some now; failure_count = 0; failure_reason = [] }, none)

check_authorized : ℕ → Probe → Answer → Liveness → Liveness × Option ClientError
unfolding check_me
check_authorized now p (raised x) s = (s, some x)
check_authorized now p (returned true) s = check_me now p.get_me (record s { authorized = true })
check_authorized now p (returned false) s =
    (count_failure (codes "unauthorized") (record s { authorized = false }), none)

check_connected : ℕ → Probe → Answer → Liveness → Liveness × Option ClientError
unfolding check_authorized
check_connected now p (raised x) s = (s, some x)
check_connected now p (returned true) s =
    check_authorized now p p.is_user_authorized (record s { connected = true })
check_connected now p (returned false) s =
    (count_failure (codes "disconnected") (record s { connected = false }), none)

unfoldable pub check : ℕ → Probe → Liveness → Liveness × Option ClientError
unfolding check_connected
check now p s = check_connected now p p.is_connected s

-- The watchdog's own state: `stopped` after its return, which sets the stop event.
pub record Watch : Type 0 where
  pub live : Liveness
  pub was_healthy : Option Bool
  pub stopped : Bool

-- `try: await enqueue_alert(text) except Exception: log`
abbrev pub try_alert : Text → World → World
try_alert text w = (try_except (enqueue_alert text) (λ x. pure tt) w).1

-- The alert on a change of health.
edge : Option Bool → Bool → Text → World → World
edge none now_healthy detail w = w
edge (some true) false detail w =
    try_alert (codes "⚠" ++ (0xFE0F ∷ (codes " Userbot MTProto session unhealthy: " ++ detail))) w
edge (some false) true detail w =
    try_alert (codes "✅ Userbot MTProto session recovered and is healthy again.") w
edge (some true) true detail w = w
edge (some false) false detail w = w

watch_on : Env → Liveness → Watch → World → Watch × World
unfolding edge
watch_on e live s w =
    let (now_healthy, detail) = is_mtproto_healthy e w.now live in
    (
      record s { live = live; was_healthy = some now_healthy },
      edge s.was_healthy now_healthy detail w,
    )

abbrev fatal_text : Text → Text
fatal_text reason =
    codes "🚨 Userbot session TERMINATED: "
    ++ (reason
        ++ codes
            " — manual re-login required (docker compose run --rm -it userbot python -m userbot.login)")

after_check : Env → Watch → World → Liveness → Option ClientError → Watch × World
unfolding watch_on
after_check e s w live none = watch_on e live s w
after_check e s w live (some (fatal reason)) =
    (record s { live = count_failure reason live; stopped = true }, try_alert (fatal_text reason) w)
after_check e s w live (some (flood_wait seconds)) =
    watch_on e (count_failure (codes "floodwait:" ++ (e.decimal seconds ++ codes "s")) live) s w
after_check e s w live (some (other reason)) = watch_on e (count_failure reason live) s w

-- One turn of the loop: the sleep, the probe, the alert.
unfoldable pub cycle : Env → Probe → Watch → World → Watch × World
unfolding after_check
cycle e p s w =
    let w' = record w { now = w.now + backoff s.live.failure_count * 1000 } in
    let (live, exc) = check w'.now p s.live in after_check e s w' live exc

-- The loop, on what the client answers in each turn, until it returns.
unfoldable pub watchdog : Env → List Probe → Watch → World → Watch × World
watchdog e [] s w = (s, w)
watchdog e (p ∷ ps) s w =
    let (s', w') = cycle e p s w in
    let rest = watchdog e ps s' w' in if s'.stopped then (s', w') else rest

-- ===== src/Userbot/Watchdog/Alerts.antt =====
-- When the watchdog alerts: on each change of health, and on nothing else.
use telegram_cms.Prelude.{
  Text, Bool, true, false, Option, none, some, List, [], ◌∷◌, ◌≡◌, ◌++◌, codes,
}
use telegram_cms.World.{World, Job, up, alert, bot}
use telegram_cms.Env.{Env}
use telegram_cms.Userbot.Watchdog.{
  ClientError, fatal, Answer, raised, Probe, Watch, is_mtproto_healthy, cycle,
}

abbrev is_fatal : Answer → Bool
is_fatal (raised (fatal _)) = true
is_fatal _ = false

abbrev is_fatal_error : Option ClientError → Bool
is_fatal_error (some (fatal _)) = true
is_fatal_error _ = false

-- No call of the client raises a fatal error.
abbrev pub IsMild : Probe → Type 0
IsMild p =
    (is_fatal p.is_connected ≡ false)
    × (is_fatal p.is_user_authorized ≡ false)
    × (is_fatal p.get_me ≡ false)

-- What the healthz of the session says after each turn: whether it is healthy, and why.
abbrev pub reports : Env → List Probe → Watch → World → List (Bool × Text)
reports e [] s w = []
reports e (p ∷ ps) s w =
    let (s', w') = cycle e p s w in is_mtproto_healthy e w'.now s'.live ∷ reports e ps s' w'

abbrev pub alert_job : Text → Job
alert_job text = record { call = alert text; queue = bot; defer_by = none }

-- The alert on a report, after a turn in which the session was healthy or not.
abbrev pub alert_on : Bool → Bool × Text → List Job
alert_on true (true, detail) = []
alert_on true (false, detail) =
    alert_job (codes "⚠" ++ (0xFE0F ∷ (codes " Userbot MTProto session unhealthy: " ++ detail)))
    ∷ []
alert_on false (true, detail) =
    alert_job (codes "✅ Userbot MTProto session recovered and is healthy again.") ∷ []
alert_on false (false, detail) = []

-- The alerts on a list of reports, from the health before them.
abbrev pub alerts : Bool → List (Bool × Text) → List Job
alerts b [] = []
alerts b (r ∷ rs) = alert_on b r ++ alerts r.0 rs

-- What a turn does to the watch and to the queues.
abbrev Turn : Env → Watch → World → Bool → Watch × World → Type 0
Turn e s w b (s', w') =
    (s'.was_healthy ≡ some (is_mtproto_healthy e w'.now s'.live).0)
    × (s'.stopped ≡ s.stopped)
    × (w'.redis ≡ up)
    × (w'.jobs ≡ w.jobs ++ alert_on b (is_mtproto_healthy e w'.now s'.live))

-- The queues and Redis and the clock after an alert, or after none.
abbrev Alerted : World → List Job → World → Type 0
Alerted w js w' = (w'.jobs ≡ w.jobs ++ js) × (w'.redis ≡ up) × (w'.now ≡ w.now)

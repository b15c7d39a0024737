-- ===== src/Tests/Watching.antt =====
-- The watchdog, run on a session that is lost and comes back.
use telegram_cms.Prelude.{true, false, some, [], codes}
use telegram_cms.Userbot.Watchdog.{returned, raised, other, Probe, Watch}

abbrev pub alive : Watch
alive = record {
  live = record {
    connected = true;
    authorized = true;
    last_ok = some 1000000;
    failure_count = 0;
    failure_reason = [];
  };
  was_healthy = some true;
  stopped = false;
}

abbrev answering : Probe
answering = record {
  is_connected = returned true;
  is_user_authorized = returned true;
  get_me = returned true;
}

abbrev lost : Probe
lost = record answering { is_connected = returned false }

abbrev failing : Probe
failing = record answering { is_connected = raised (other (codes "OSError")) }

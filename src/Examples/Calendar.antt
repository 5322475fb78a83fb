-- ===== src/Examples/Calendar.antt =====
-- A schedule of every five minutes that was missed twice, and a new daily one.
use agent_demo.Prelude.{◌+◌, ◌*◌, ◌/◌, true, some, none}
use agent_demo.Task.{seconds}
use agent_demo.Schedules.{Zones, interval, Schedule}

-- UTC, where a day has 86,400 seconds and every time of a day exists.
abbrev pub zones : Zones
zones = record {
  is_zone = λ name. true;
  local_day = λ name now. now / seconds 86400;
  to_utc = λ name day at. seconds (day * 86400 + at * 60);
  round_trips = λ name day at. true;
  parse_time = λ text. some 480;
}

abbrev pub schedule : Schedule
schedule = record {
  kind = interval;
  timezone = "UTC";
  next_run_at = some (record { instant = seconds 100; is_aware = true });
  interval_seconds = some 300;
  daily_time = none;
}

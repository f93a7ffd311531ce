-- ===== src/Examples/ScheduleRuns.antt =====
-- The theorems on schedules at the small hub, and how a schedule comes to block the engine.
use ampla.Shared.{ℕ, ◌+◌, ◌≡◌, refl, pos, String, true, false, none, some, List, [], ◌∷◌, map}
use ampla.Text.{parse_int}
use ampla.Models.{AgentSchedule, interval}
use ampla.Hub.{Db}
use ampla.Hub.Exec.{err, unexpected}
use ampla.Schedules.Outcomes.{overflow_error, FromIsoFormat, int, parse_interval}
use ampla.Schedules.Cron.{CronSpec, next_run}
use ampla.Schedules.Repo.{due, save_schedule, add_schedule}
use ampla.Schedules.Service.{ScheduleCreate, create_schedule, run_now, validate}
use ampla.Schedules.Engine.{Manager, Hall, SweepSettings, tick}
use ampla.Schedules.Ticks.{tick-blocked}
use ampla.Examples.{env, hub, rui}

abbrev no_instants : FromIsoFormat
no_instants spec = none

-- The first minutes of an hour, on the first day of a month.
abbrev monthly : CronSpec
monthly = record {
  minutes = 0 ∷ 15 ∷ 30 ∷ 45 ∷ [];
  hours = 8 ∷ [];
  doms = 1 ∷ [];
  months = 1 ∷ 2 ∷ 3 ∷ [];
  dows = 0 ∷ 1 ∷ 2 ∷ 3 ∷ 4 ∷ 5 ∷ 6 ∷ [];
}

abbrev scheduled : ℕ → String → AgentSchedule
scheduled id spec = record {
  id = id;
  owner_id = pos 2;
  agent_slug = "bot";
  name = "Resumo";
  kind = interval;
  spec = spec;
  prompt = "Resuma o dia.";
  tools = "read";
  enabled = true;
  next_run_at = some (100 + id);
  last_run_at = none;
  last_status = none;
  created_by = "user:2";
  created_at = 10;
  updated_at = 10;
}

abbrev all_online : Manager
all_online = record { is_online = λ slug. true; send_to_agent = λ slug. true }

abbrev hall_with : List AgentSchedule → Hall
hall_with schedules = record {
  db = record hub { schedules = schedules };
  sent = [];
  last_sweep = none;
}

abbrev two : Hall
two = hall_with (scheduled 2 "3600" ∷ scheduled 1 "60" ∷ [])

-- An interval that `_validate` lets pass: it is positive, and past the calendar.
abbrev endless_spec : String
endless_spec = "999999999999999"

past : next_run no_instants interval endless_spec env.now ≡ overflow_error
unfolding next_run parse_interval int parse_int
past = refl

abbrev stuck : Hall
stuck = hall_with (scheduled 1 endless_spec ∷ scheduled 2 "60" ∷ [])

stuck-due : due env.now stuck.db ≡ scheduled 1 endless_spec ∷ scheduled 2 "60" ∷ []
unfolding due
stuck-due = refl

abbrev sweeps : SweepSettings
sweeps = record {
  retention_sweep_interval_hours = 24;
  notification_done_ttl_days = 90;
  approval_ttl_hours = 48;
}

tick-blocked_example :
    ((tick no_instants all_online sweeps env stuck).0 ≡ err unexpected)
    × ((tick no_instants all_online sweeps env stuck).1.sent ≡ [])
    × ((tick no_instants all_online sweeps env stuck).1.db.schedules ≡ stuck.db.schedules)
    × ((tick no_instants all_online sweeps env stuck).1.last_sweep ≡ none)
tick-blocked_example =
    tick-blocked no_instants all_online sweeps env stuck (scheduled 1 endless_spec)
      (scheduled 2 "60" ∷ []) stuck-due past

-- The way there: a schedule that is stored disabled, and then run by hand.
abbrev disabled : ScheduleCreate
disabled = record {
  name = "Nunca";
  kind = interval;
  spec = endless_spec;
  prompt = "Resuma.";
  tools = "read";
  enabled = false;
}

reached :
    map
      (λ (s : AgentSchedule). s.spec)
      (due env.now
        (run_now env rui 1 (create_schedule no_instants 60 env rui "bot" disabled hub).1).1)
    ≡ endless_spec ∷ []
unfolding due run_now ampla.Schedules.Service.owned_schedule create_schedule
    ampla.Schedules.Service.scheduled_agent add_schedule ampla.Hub.Exec.audit save_schedule
reached = refl

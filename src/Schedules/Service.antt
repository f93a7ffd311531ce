-- ===== src/Schedules/Service.antt =====
-- The schedules of an agent (hub/app/services/schedule_service.py).
use ampla.Shared.{
  ℕ, String, Bool, true, false, not, ◌||◌, ◌==◌, eq_nat, eq_string, eq_int, Option, none, some,
  List, map, ltb, if◌then◌else◌,
}
use ampla.Text.{strip}
use ampla.Models.{User, Agent, AgentSchedule, Kind, interval, Time, is_admin}
use ampla.Hub.{Db, Env}
use ampla.Hub.Exec.{
  Service, hung, pure, gets, raise, raise_if, or_raise, audit, ◌>>=◌, ◌>>◌, not_found,
  permission_denied, invalid_input, unexpected,
}
use ampla.Kanban.Notices.{user_ref}
use ampla.Kanban.Access.{get_agent}
use ampla.Schedules.Outcomes.{
  Outcome, returned, value_error, overflow_error, endless, FromIsoFormat, parse_interval,
}
use ampla.Schedules.Cron.{validate_spec, next_run}
use ampla.Schedules.Repo.{
  add_schedule, get_schedule, save_schedule, delete_schedule_row, schedules_of,
}

-- The call does not return.
abbrev hang : {A : Type 0} → Service A
hang db = (hung, db)

-- ValueError is turned into a domain error; OverflowError is not handled.
abbrev pub or_invalid : {A : Type 0} → Outcome A → Service A
or_invalid (returned a) = pure a
or_invalid value_error = raise invalid_input
or_invalid overflow_error = raise unexpected
or_invalid endless = hang

-- Outside the `try` of `_validate` any exception passes through.
abbrev pub or_unexpected : {A : Type 0} → Outcome A → Service A
or_unexpected (returned a) = pure a
or_unexpected value_error = raise unexpected
or_unexpected overflow_error = raise unexpected
or_unexpected endless = hang

-- `_owned_agent`
abbrev pub may_schedule : User → Agent → Bool
may_schedule user agent = if agent.user_id == user.id then true else is_admin user.role

unfoldable pub scheduled_agent : User → String → Service Agent
scheduled_agent user agent_slug = do
  found ← gets (get_agent agent_slug)
  agent ← or_raise found not_found
  raise_if (not (may_schedule user agent)) permission_denied
  pure agent

-- `_owned_schedule`
abbrev pub owns_schedule : User → AgentSchedule → Bool
owns_schedule user s = if s.owner_id == user.id then true else is_admin user.role

abbrev owned_row : User → Option AgentSchedule → Option AgentSchedule
owned_row user none = none
owned_row user (some s) = if owns_schedule user s then some s else none

unfoldable pub owned_schedule : User → ℕ → Service AgentSchedule
owned_schedule user id = do
  found ← gets (get_schedule id)
  or_raise (owned_row user found) not_found

-- The floor for an interval that was read.
abbrev under_floor : ℕ → Outcome ℕ → Bool
under_floor floor (returned secs) = ltb secs floor
under_floor floor _ = false

abbrev too_short : ℕ → Kind → String → Bool
too_short floor interval spec = under_floor floor (parse_interval spec)
too_short floor _ spec = false

-- `_validate`
unfoldable pub validate : FromIsoFormat → ℕ → Kind → String → Service Unit
unfolding validate_spec parse_interval
validate fromisoformat min_interval kind spec = do
  or_invalid (validate_spec fromisoformat kind spec)
  raise_if (too_short min_interval kind spec) invalid_input

-- `next_run(…) if enabled else None`
abbrev pub next_if : FromIsoFormat → Bool → Kind → String → Time → Service (Option Time)
next_if fromisoformat true kind spec now = or_unexpected (next_run fromisoformat kind spec now)
next_if fromisoformat false kind spec now = pure none

-- hub/app/schemas/schedule.py
pub record ScheduleCreate : Type 0 where
  pub name : String
  pub kind : Kind
  pub spec : String
  pub prompt : String
  pub tools : String
  pub enabled : Bool

pub record ScheduleUpdate : Type 0 where
  pub name : Option String
  pub kind : Option Kind
  pub spec : Option String
  pub prompt : Option String
  pub tools : Option String
  pub enabled : Option Bool

abbrev pub new_schedule : Env → User → String → ScheduleCreate → Option Time → Db → AgentSchedule
new_schedule env user agent_slug body next_run_at db = record {
  id = env.new_id (map (λ (s : AgentSchedule). s.id) db.schedules);
  owner_id = user.id;
  agent_slug = agent_slug;
  name = strip body.name;
  kind = body.kind;
  spec = strip body.spec;
  prompt = body.prompt;
  tools = body.tools;
  enabled = body.enabled;
  next_run_at = next_run_at;
  last_run_at = none;
  last_status = none;
  created_by = user_ref user.id;
  created_at = env.now;
  updated_at = env.now;
}

unfoldable pub create_schedule :
    FromIsoFormat → ℕ → Env → User → String → ScheduleCreate → Service AgentSchedule
unfolding validate strip
create_schedule fromisoformat min_interval env user agent_slug body = do
  scheduled_agent user agent_slug
  validate fromisoformat min_interval body.kind body.spec
  next_run_at ← next_if fromisoformat body.enabled body.kind (strip body.spec) env.now
  row ← gets (new_schedule env user agent_slug body next_run_at)
  schedule ← add_schedule row
  audit "schedule_created" user.email
  pure schedule

abbrev some_or : {A : Type 0} → Option A → A → A
some_or none a = a
some_or (some b) a = b

abbrev is_some : {A : Type 0} → Option A → Bool
is_some none = false
is_some (some a) = true

abbrev stripped_or : Option String → String → String
stripped_or none name = name
stripped_or (some given) name = strip given

abbrev timing_changed : ScheduleUpdate → Bool
timing_changed body = is_some body.kind || is_some body.spec

-- The fields that need no check. A body that leaves kind and spec out keeps the stored ones.
abbrev pub updated : Env → ScheduleUpdate → AgentSchedule → AgentSchedule
updated env body s = record s {
  name = stripped_or body.name s.name;
  prompt = some_or body.prompt s.prompt;
  tools = some_or body.tools s.tools;
  kind = some_or body.kind s.kind;
  spec = if timing_changed body then strip (some_or body.spec s.spec) else s.spec;
  enabled = some_or body.enabled s.enabled;
  updated_at = env.now;
}

-- The next time is computed again where the timing or the flag is given.
abbrev pub rescheduled :
    FromIsoFormat → Env → ScheduleUpdate → AgentSchedule → Service (Option Time)
rescheduled fromisoformat env body s =
    if timing_changed body || is_some body.enabled
    then next_if fromisoformat (some_or body.enabled s.enabled) (some_or body.kind s.kind)
        (strip (some_or body.spec s.spec)) env.now
    else pure s.next_run_at

abbrev validated_if : Bool → Service Unit → Service Unit
validated_if true checks = checks
validated_if false checks = pure tt

unfoldable pub update_schedule :
    FromIsoFormat → ℕ → Env → User → ℕ → ScheduleUpdate → Service AgentSchedule
unfolding validate strip
update_schedule fromisoformat min_interval env user id body = do
  s ← owned_schedule user id
  validated_if (timing_changed body) (
      validate fromisoformat min_interval (some_or body.kind s.kind)
        (strip (some_or body.spec s.spec)))
  next_run_at ← rescheduled fromisoformat env body s
  save_schedule (record (updated env body s) { next_run_at = next_run_at })
  audit "schedule_updated" user.email
  pure (record (updated env body s) { next_run_at = next_run_at })

unfoldable pub delete_schedule : User → ℕ → Service Unit
delete_schedule user id = do
  s ← owned_schedule user id
  delete_schedule_row s
  audit "schedule_deleted" user.email

abbrev pub armed : Env → AgentSchedule → AgentSchedule
armed env s = record s { enabled = true; next_run_at = some env.now; updated_at = env.now }

unfoldable pub run_now : Env → User → ℕ → Service AgentSchedule
run_now env user id = do
  s ← owned_schedule user id
  save_schedule (armed env s)
  audit "schedule_run_now" user.email
  pure (armed env s)

-- The report of the agent that the schedule belongs to.
abbrev pub report : Env → String → String → Option AgentSchedule → Service Unit
report env agent_slug status none = pure tt
report env agent_slug status (some s) = if not (s.agent_slug == agent_slug) then pure tt else (do
  save_schedule (record s { last_status = some status; updated_at = env.now })
  audit "scheduled_task_run" agent_slug)

unfoldable pub record_report : Env → String → ℕ → String → Service Unit
record_report env agent_slug id status = do
  found ← gets (get_schedule id)
  report env agent_slug status found

unfoldable pub schedules_for_agent : User → String → Service (List AgentSchedule)
schedules_for_agent user agent_slug = do
  scheduled_agent user agent_slug
  gets (schedules_of agent_slug)

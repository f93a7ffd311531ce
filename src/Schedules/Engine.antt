-- ===== src/Schedules/Engine.antt =====
-- The engine that fires due schedules (hub/app/services/scheduler_engine.py).
use ampla.Shared.{
  ℕ, ◌-◌, ◌*◌, max, String, Bool, false, not, Option, none, some, List, [], ◌∷◌, ◌++◌, ltb,
  if◌then◌else◌,
}
use ampla.Models.{Agent, AgentSchedule, Time}
use ampla.Hub.{Db, Env, second}
use ampla.Hub.Exec.{Service, Result, ok, err, hung, attempt, when, audit, ◌>>=◌, ◌>>◌, unexpected}
use ampla.Kanban.Access.{get_agent}
use ampla.Inbox.Triage.{prune_done}
use ampla.Approvals.{expire_pending}
use ampla.Schedules.Outcomes.{
  Outcome, returned, value_error, overflow_error, endless, FromIsoFormat,
}
use ampla.Schedules.Cron.{next_run}
use ampla.Schedules.Repo.{due, save_schedule}
use ampla.Schedules.KillSwitch.{enabled_or, get_kill_switch}

-- The connections that the engine sees: which agents are online, and to which a frame gets through.
pub record Manager : Type 0 where
  pub is_online : String → Bool
  pub send_to_agent : String → Bool

pub record ScheduledTaskFrame : Type 0 where
  pub schedule_id : ℕ
  pub name : String
  pub prompt : String
  pub tools : String

-- The database, the frames that were handed to a connection, newest last, and the time of the last
-- sweep.
pub record Hall : Type 0 where
  pub db : Db
  pub sent : List ScheduledTaskFrame
  pub last_sweep : Option Time

abbrev pub frame_of : AgentSchedule → ScheduledTaskFrame
frame_of s = record { schedule_id = s.id; name = s.name; prompt = s.prompt; tools = s.tools }

-- Whether the task goes out, or the status that says why it does not (`_fire`).
abbrev pub gate : Manager → Bool → AgentSchedule → Option Agent → Option String
gate m kill_enabled s none =
    if not kill_enabled then some "skipped_killswitch" else some "skipped_offline"
gate m kill_enabled s (some agent) =
    if not kill_enabled
    then some "skipped_killswitch"
    else if agent.auto_paused
    then some "skipped_paused"
    else if not (m.is_online s.agent_slug)
    then some "skipped_offline"
    else none

abbrev pub status_of : Manager → AgentSchedule → Option String → String
status_of m s (some status) = status
status_of m s none = if m.send_to_agent s.agent_slug then "running" else "skipped_offline"

abbrev pub frames_of : Manager → AgentSchedule → Option String → List ScheduledTaskFrame
frames_of m s (some status) = []
frames_of m s none = if m.send_to_agent s.agent_slug then frame_of s ∷ [] else []

-- The row of a claimed schedule.
abbrev pub claimed : Time → Option Time → String → AgentSchedule → AgentSchedule
claimed now next_run_at status s = record s {
  next_run_at = next_run_at;
  last_run_at = some now;
  updated_at = now;
  last_status = some status;
}

-- The claim is written and the frame goes out.
unfoldable pub fire : Manager → Bool → Time → AgentSchedule → Option Time → Hall → Hall
unfolding save_schedule audit
fire m kill_enabled now s next_run_at h =
    let verdict = gate m kill_enabled s (get_agent s.agent_slug h.db) in
    record {
      db =
          ((save_schedule (claimed now next_run_at (status_of m s verdict) s)
              >> audit "scheduled_task_fired" "scheduler")
            h.db).1;
      sent = h.sent ++ frames_of m s verdict;
      last_sweep = h.last_sweep;
    }

-- What an exception of `next_run` does to the loop.
abbrev pub go_on :
    Hall → Outcome (Option Time) → (Option Time → Result Unit × Hall) → Result Unit × Hall
go_on h (returned n) rest = rest n
go_on h value_error rest = (err unexpected, h)
go_on h overflow_error rest = (err unexpected, h)
go_on h endless rest = (hung, h)

-- The loop over the due schedules: an exception of `next_run` ends it.
abbrev pub fire_all :
    FromIsoFormat → Manager → Bool → Time → List AgentSchedule → Hall → Result Unit × Hall
fire_all fromisoformat m kill_enabled now [] h = (ok tt, h)
fire_all fromisoformat m kill_enabled now (s ∷ ss) h =
    go_on h (next_run fromisoformat s.kind s.spec now)
      (λ n. fire_all fromisoformat m kill_enabled now ss (fire m kill_enabled now s n h))

-- A service call on the database of the hall.
abbrev pub on_db : {A : Type 0} → Service A → Hall → Result A × Hall
on_db call h = ((call h.db).0, record h { db = (call h.db).1 })

abbrev pub fire_due :
    FromIsoFormat → Manager → Time → List AgentSchedule → Hall → Result Unit × Hall
fire_due fromisoformat m now [] h = (ok tt, h)
fire_due fromisoformat m now (s ∷ ss) h =
    fire_all fromisoformat m (enabled_or h.db.auto_responder_enabled) now (s ∷ ss)
      (on_db get_kill_switch h).1

-- `_run_due_schedules`
unfoldable pub run_due_schedules : FromIsoFormat → Manager → Env → Hall → Result Unit × Hall
unfolding due get_kill_switch
run_due_schedules fromisoformat m env h = fire_due fromisoformat m env.now (due env.now h.db) h

-- hub/app/core/config.py
pub record SweepSettings : Type 0 where
  pub retention_sweep_interval_hours : ℕ
  pub notification_done_ttl_days : ℕ
  pub approval_ttl_hours : ℕ

abbrev too_early : SweepSettings → Env → Option Time → Bool
too_early settings env none = false
too_early settings env (some last) =
    ltb (env.now - last) (max settings.retention_sweep_interval_hours 1 * (3600 * second))

-- Both parts are attempted, whatever the first does.
unfoldable pub sweep : SweepSettings → Env → Service Unit
unfolding prune_done expire_pending
sweep settings env = do
  attempt (do
    pruned ← prune_done env settings.notification_done_ttl_days
    when (ltb 0 pruned) (audit "notifications_pruned" "scheduler"))
  attempt (expire_pending env settings.approval_ttl_hours)

-- `_maybe_sweep`
unfoldable pub maybe_sweep : SweepSettings → Env → Hall → Result Unit × Hall
unfolding sweep
maybe_sweep settings env h =
    if too_early settings env h.last_sweep
    then (ok tt, h)
    else on_db (sweep settings env) (record h { last_sweep = some env.now })

abbrev pub then_sweep : SweepSettings → Env → Result Unit × Hall → Result Unit × Hall
then_sweep settings env (ok u, h) = maybe_sweep settings env h
then_sweep settings env (err e, h) = (err e, h)
then_sweep settings env (hung, h) = (hung, h)

unfoldable pub tick : FromIsoFormat → Manager → SweepSettings → Env → Hall → Result Unit × Hall
unfolding run_due_schedules maybe_sweep
tick fromisoformat m settings env h =
    then_sweep settings env (run_due_schedules fromisoformat m env h)

-- One round of `run_forever`: an exception is logged, and the loop goes on with the state it left.
abbrev pub survived : Result Unit × Hall → Option Hall
survived (ok u, h) = some h
survived (err e, h) = some h
survived (hung, h) = none

unfoldable pub round : FromIsoFormat → Manager → SweepSettings → Env → Hall → Option Hall
unfolding tick
round fromisoformat m settings env h = survived (tick fromisoformat m settings env h)

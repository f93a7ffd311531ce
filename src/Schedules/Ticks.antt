-- ===== src/Schedules/Ticks.antt =====
-- What a tick of the engine does with the due schedules (hub/app/services/scheduler_engine.py).
use ampla.Shared.{◌≡◌, refl, eq_nat, List, ◌∷◌}
use ampla.Models.{AgentSchedule, Time}
use ampla.Hub.{Env}
use ampla.Hub.Exec.{err, unexpected}
use ampla.Schedules.Outcomes.{overflow_error, FromIsoFormat}
use ampla.Schedules.Cron.{next_run}
use ampla.Schedules.Repo.{due}
use ampla.Schedules.Engine.{Manager, Hall}
use ampla.Schedules.Engine.{run_due_schedules, fire_due, tick, on_db, SweepSettings}
use ampla.Schedules.KillSwitch.{get_kill_switch}

blocked :
    (fromisoformat : FromIsoFormat) (m : Manager) (now : Time) (s : AgentSchedule)
    (listed ss : List AgentSchedule) (h : Hall)
    → listed ≡ s ∷ ss
    → next_run fromisoformat s.kind s.spec now ≡ overflow_error
    → fire_due fromisoformat m now listed h ≡ (err unexpected, (on_db get_kill_switch h).1)
blocked fromisoformat m now s listed ss h e f = rw (e, f) refl

-- A due schedule that comes first and whose next time is past the calendar ends the tick with an
-- exception: nothing is sent, no schedule changes, and the retention sweep is left out.
pub tick-blocked :
    (fromisoformat : FromIsoFormat) (m : Manager) (settings : SweepSettings) (env : Env) (h : Hall)
    (s : AgentSchedule) (ss : List AgentSchedule)
    → due env.now h.db ≡ s ∷ ss
    → next_run fromisoformat s.kind s.spec env.now ≡ overflow_error
    → ((tick fromisoformat m settings env h).0 ≡ err unexpected)
      × ((tick fromisoformat m settings env h).1.sent ≡ h.sent)
      × ((tick fromisoformat m settings env h).1.db.schedules ≡ h.db.schedules)
      × ((tick fromisoformat m settings env h).1.last_sweep ≡ h.last_sweep)
unfolding tick run_due_schedules get_kill_switch
tick-blocked fromisoformat m settings env h s ss first past =
    rw (blocked fromisoformat m env.now s (due env.now h.db) ss h first past)
      (refl, refl, refl, refl)

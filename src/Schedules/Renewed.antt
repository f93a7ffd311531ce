-- ===== src/Schedules/Renewed.antt =====
-- What the engine's loop writes to the schedules (hub/app/services/scheduler_engine.py).
use ampla.Shared.{◌≡◌, ◌⊎◌, inl, inr, refl, Bool, some, List, [], ◌∷◌, In, All, All-update_rows}
use ampla.Models.{AgentSchedule, Time}
use ampla.Hub.Exec.{audit}
use ampla.Kanban.Access.{get_agent}
use ampla.Schedules.Outcomes.{returned, FromIsoFormat}
use ampla.Schedules.Cron.{next_run}
use ampla.Schedules.Repo.{save_schedule, schedule_id}
use ampla.Schedules.Engine.{Manager, Hall, gate, status_of, claimed, fire, fire_all}
use ampla.Schedules.Loop.{Computes}

-- The row of a schedule that fired: its next time from now, fired now, and otherwise as it was, but
-- for the time of the update and the status.
abbrev pub Renewed : FromIsoFormat → Time → AgentSchedule → AgentSchedule → Type 0
Renewed fromisoformat now s r =
    (next_run fromisoformat s.kind s.spec now ≡ returned r.next_run_at)
    × (r.last_run_at ≡ some now)
    × (record r {
      next_run_at = s.next_run_at;
      last_run_at = s.last_run_at;
      updated_at = s.updated_at;
      last_status = s.last_status;
    }
        ≡ s)

-- A row that was there before, or that of one of the schedules that fired.
abbrev pub Since :
    FromIsoFormat → Time → List AgentSchedule → List AgentSchedule → AgentSchedule → Type 0
Since fromisoformat now before fired r =
    In r before ⊎ ((s : AgentSchedule) × In s fired × Renewed fromisoformat now s r)

pub before-Since :
    (fromisoformat : FromIsoFormat) (now : Time) (fired rows before : List AgentSchedule)
    → ((r : AgentSchedule) → In r rows → In r before)
    → All (Since fromisoformat now before fired) rows
before-Since fromisoformat now fired [] before h = tt
before-Since fromisoformat now fired (r ∷ rs) before h =
    (inl (h r (inl refl)), before-Since fromisoformat now fired rs before (λ x i. h x (inr i)))

fired-Since :
    (fromisoformat : FromIsoFormat) (m : Manager) (kill_enabled : Bool) (now : Time)
    (s : AgentSchedule) (before fired : List AgentSchedule) (h : Hall)
    (c : Computes fromisoformat now s)
    → In s fired
    → All (Since fromisoformat now before fired) h.db.schedules
    → All (Since fromisoformat now before fired) (fire m kill_enabled now s c.0 h).db.schedules
unfolding fire save_schedule audit
fired-Since fromisoformat m kill_enabled now s before fired h (n, e) i a =
    All-update_rows (Since fromisoformat now before fired) (schedule_id s.id)
      (λ _. claimed now n (status_of m s (gate m kill_enabled s (get_agent s.agent_slug h.db))) s)
      h.db.schedules (λ x. inr (s, i, (e, refl, refl))) a

-- Where all next times can be computed, the loop renews the schedules it is given and leaves the others.
pub fire_all-Since :
    (fromisoformat : FromIsoFormat) (m : Manager) (kill_enabled : Bool) (now : Time)
    (ss before fired : List AgentSchedule) (h : Hall)
    → ((s : AgentSchedule) → In s ss → In s fired)
    → All (Computes fromisoformat now) ss
    → All (Since fromisoformat now before fired) h.db.schedules
    → All
        (Since fromisoformat now before fired)
        (fire_all fromisoformat m kill_enabled now ss h).1.db.schedules
fire_all-Since fromisoformat m kill_enabled now [] before fired h among c a = a
fire_all-Since fromisoformat m kill_enabled now (s ∷ ss) before fired h among c a = rw c.0.1 (
    fire_all-Since fromisoformat m kill_enabled now ss before fired
      (fire m kill_enabled now s c.0.0 h) (λ x i. among x (inr i)) c.1
      (fired-Since fromisoformat m kill_enabled now s before fired h c.0 (among s (inl refl)) a))

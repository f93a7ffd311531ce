-- ===== src/Schedules/Repo.antt =====
-- hub/app/repositories/schedule_repo.py
use ampla.Shared.{
  ℕ, String, Bool, false, not, ◌&&◌, ◌==◌, eq_nat, eq_string, eq_int, Option, none, some, List, [],
  ◌∷◌, ◌++◌, select, find_row, update_rows, order_by, take, nat_eq, ltb, leb, if◌then◌else◌,
}
use ampla.Models.{AgentSchedule, Time}
use ampla.Hub.{Db}
use ampla.Hub.Exec.{Service, ok}

abbrev pub schedule_id : ℕ → AgentSchedule → Bool
schedule_id id s = s.id == id

unfoldable pub add_schedule : AgentSchedule → Service AgentSchedule
add_schedule s db = (ok s, record db { schedules = db.schedules ++ s ∷ [] })

abbrev pub get_schedule : ℕ → Db → Option AgentSchedule
get_schedule id db = find_row (schedule_id id) db.schedules

unfoldable pub save_schedule : AgentSchedule → Service Unit
save_schedule s db =
    (ok tt, record db { schedules = update_rows (schedule_id s.id) (λ _. s) db.schedules })

unfoldable pub delete_schedule_row : AgentSchedule → Service Unit
delete_schedule_row s db =
    (ok tt, record db { schedules = select (λ t. not (schedule_id s.id t)) db.schedules })

abbrev newer : AgentSchedule → AgentSchedule → Bool
newer a b =
    if nat_eq a.created_at b.created_at then leb b.id a.id else ltb b.created_at a.created_at

unfoldable pub schedules_of : String → Db → List AgentSchedule
schedules_of agent_slug db =
    order_by newer (select (λ (s : AgentSchedule). s.agent_slug == agent_slug) db.schedules)

-- `next_run_at is not None and next_run_at <= now`
abbrev pub has_come : Time → Option Time → Bool
has_come now none = false
has_come now (some t) = leb t now

abbrev pub is_due : Time → AgentSchedule → Bool
is_due now s = s.enabled && has_come now s.next_run_at

abbrev time_or : Option Time → Time
time_or none = 0
time_or (some t) = t

abbrev pub sooner : AgentSchedule → AgentSchedule → Bool
sooner a b = leb (time_or a.next_run_at) (time_or b.next_run_at)

-- The limit is the default of the repository.
unfoldable pub due : Time → Db → List AgentSchedule
due now db = take 100 (order_by sooner (select (is_due now) db.schedules))

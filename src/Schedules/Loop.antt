-- ===== src/Schedules/Loop.antt =====
-- The loop of the engine over the due schedules (hub/app/services/scheduler_engine.py).
use mathlib.Core.List.{append-nil, append_assoc}
use ampla.Shared.{
  ℕ, ◌<◌, ◌≡◌, ◌⊎◌, inl, inr, refl, sym, ap, ◌∙◌, String, Bool, true, false, eq_nat, Option, none,
  some, List, [], ◌∷◌, ◌++◌, arith, Bool-cases, All, any, update_rows, nat_eq, leb,
}
use ampla.Models.{AgentSchedule, Time}
use ampla.Hub.{Db}
use ampla.Hub.Exec.{ok, audit}
use ampla.Kanban.Access.{get_agent}
use ampla.Schedules.Outcomes.{returned, FromIsoFormat}
use ampla.Schedules.Cron.{next_run}
use ampla.Schedules.Later.{Later, next_run-Later}
use ampla.Schedules.Repo.{is_due, schedule_id, save_schedule}
use ampla.Schedules.Engine.{
  Manager, ScheduledTaskFrame, Hall, gate, frames_of, status_of, claimed, fire, fire_all,
}

-- The next time of the schedule can be computed.
abbrev pub Computes : FromIsoFormat → Time → AgentSchedule → Type 0
Computes fromisoformat now s =
    (n : Option Time) × (next_run fromisoformat s.kind s.spec now ≡ returned n)

-- A schedule that is due is one of those.
abbrev pub Listed : Time → List AgentSchedule → AgentSchedule → Type 0
Listed now ss r = (is_due now r ≡ false) ⊎ (any (schedule_id r.id) ss ≡ true)

-- The frames of the tasks that may go out, in order.
abbrev pub frames : Manager → Bool → Db → List AgentSchedule → List ScheduledTaskFrame
frames m kill_enabled db [] = []
frames m kill_enabled db (s ∷ ss) =
    frames_of m s (gate m kill_enabled s (get_agent s.agent_slug db)) ++ frames m kill_enabled db ss

claimed-not_due :
    (now : Time) (n : Option Time) (status : String) (s : AgentSchedule)
    → Later now (returned n)
    → is_due now (claimed now n status s) ≡ false
claimed-not_due now none status s h = elim (Bool-cases s.enabled) [
  | inl e ↦ rw e refl
  | inr e ↦ rw e refl
]
claimed-not_due now (some t) status s h = elim (Bool-cases s.enabled) [
  | inl e ↦ rw (e, not_yet t now h) refl
  | inr e ↦ rw e refl
]
  where
    not_yet : (a b : ℕ) → b < a → leb a b ≡ false
    not_yet a b h = ground (arith, h)

apart : (a b : ℕ) → nat_eq a b ≡ false → nat_eq b a ≡ false
apart a b h = ground (arith, h)

-- Claiming the first of them leaves the others.
claim-Listed :
    (now : Time) (s new : AgentSchedule) (ss rows : List AgentSchedule)
    → is_due now new ≡ false
    → All (Listed now (s ∷ ss)) rows
    → All (Listed now ss) (update_rows (schedule_id s.id) (λ _. new) rows)
claim-Listed now s new ss [] d a = tt
claim-Listed now s new ss (r ∷ rs) d a = elim (Bool-cases (schedule_id s.id r)) [
  | inl e ↦ rw e (inl d, claim-Listed now s new ss rs d a.1)
  | inr e ↦ rw e (keep a.0 e, claim-Listed now s new ss rs d a.1)
]
  where
    keep : Listed now (s ∷ ss) r → schedule_id s.id r ≡ false → Listed now ss r
    keep (inl x) e = inl x
    keep (inr x) e = inr (rw (apart r.id s.id e) at x)

fired-Listed :
    (fromisoformat : FromIsoFormat) (m : Manager) (kill_enabled : Bool) (now : Time)
    (s : AgentSchedule) (ss : List AgentSchedule) (h : Hall) (c : Computes fromisoformat now s)
    → All (Listed now (s ∷ ss)) h.db.schedules
    → All (Listed now ss) (fire m kill_enabled now s c.0 h).db.schedules
unfolding fire save_schedule audit
fired-Listed fromisoformat m kill_enabled now s ss h (n, e) a =
    claim-Listed now s
      (claimed now n (status_of m s (gate m kill_enabled s (get_agent s.agent_slug h.db))) s) ss
      h.db.schedules
      (claimed-not_due now n (status_of m s (gate m kill_enabled s (get_agent s.agent_slug h.db))) s
        (rw e at (next_run-Later fromisoformat s.kind s.spec now)))
      a

-- The agents stay as they are.
fired-frames :
    (m : Manager) (kill_enabled : Bool) (now : Time) (s : AgentSchedule) (n : Option Time)
    (h : Hall) (ss : List AgentSchedule)
    → frames m kill_enabled (fire m kill_enabled now s n h).db ss ≡ frames m kill_enabled h.db ss
unfolding fire save_schedule audit
fired-frames m kill_enabled now s n h [] = refl
fired-frames m kill_enabled now s n h (x ∷ xs) =
    ap (λ r. frames_of m x (gate m kill_enabled x (get_agent x.agent_slug h.db)) ++ r)
      (fired-frames m kill_enabled now s n h xs)

fired-sent :
    (m : Manager) (kill_enabled : Bool) (now : Time) (s : AgentSchedule) (n : Option Time)
    (h : Hall)
    → (fire m kill_enabled now s n h).sent
      ≡ h.sent ++ frames_of m s (gate m kill_enabled s (get_agent s.agent_slug h.db))
unfolding fire
fired-sent m kill_enabled now s n h = refl

-- Where all next times can be computed, the loop ends, leaves none of the listed schedules due, and
-- hands out the frames of those that may go.
pub fire_all-Listed :
    (fromisoformat : FromIsoFormat) (m : Manager) (kill_enabled : Bool) (now : Time)
    (ss : List AgentSchedule) (h : Hall)
    → All (Computes fromisoformat now) ss
    → All (Listed now ss) h.db.schedules
    → ((fire_all fromisoformat m kill_enabled now ss h).0 ≡ ok tt)
      × All (Listed now []) (fire_all fromisoformat m kill_enabled now ss h).1.db.schedules
      × ((fire_all fromisoformat m kill_enabled now ss h).1.sent
          ≡ h.sent ++ frames m kill_enabled h.db ss)
fire_all-Listed fromisoformat m kill_enabled now [] h c a = (refl, a, sym (append-nil h.sent))
fire_all-Listed fromisoformat m kill_enabled now (s ∷ ss) h c a = rw c.0.1 (
    let (done, left, out) =
      fire_all-Listed fromisoformat m kill_enabled now ss (fire m kill_enabled now s c.0.0 h) c.1
        (fired-Listed fromisoformat m kill_enabled now s ss h c.0 a) in
    (
      done,
      left,
      out
          ∙ (rw
              (
                fired-frames m kill_enabled now s c.0.0 h ss,
                fired-sent m kill_enabled now s c.0.0 h,
              )
              (append_assoc h.sent
                (frames_of m s (gate m kill_enabled s (get_agent s.agent_slug h.db)))
                (frames m kill_enabled h.db ss))),
    ))

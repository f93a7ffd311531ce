-- ===== src/Schedules/Tasks.antt =====
-- The tasks that a tick sends, against an account of their own (hub/app/services/scheduler_engine.py,
-- `_fire`).
use ampla.Shared.{
  ◌≡◌, inl, inr, refl, ap, ◌∙◌, String, Bool, false, not, ◌&&◌, Option, none, some, if◌then◌else◌,
  eq_nat, List, [], ◌∷◌, ◌++◌, Bool-cases,
}
use ampla.Models.{Agent, AgentSchedule}
use ampla.Hub.{Db}
use ampla.Kanban.Access.{get_agent}
use ampla.Schedules.Engine.{Manager, ScheduledTaskFrame, gate, frames_of}
use ampla.Schedules.Loop.{frames}

-- The switch is on, the agent exists and is not paused, and it is online on a live connection.
abbrev pub goes_out : Manager → Bool → Option Agent → String → Bool
goes_out m enabled none slug = false
goes_out m enabled (some agent) slug =
    enabled && (not agent.auto_paused && (m.is_online slug && m.send_to_agent slug))

-- One task for each of the schedules that go out, with the name, the prompt and the tools as stored.
abbrev pub tasks : Manager → Bool → Db → List AgentSchedule → List ScheduledTaskFrame
tasks m enabled db [] = []
tasks m enabled db (s ∷ ss) =
    if goes_out m enabled (get_agent s.agent_slug db) s.agent_slug
    then record { schedule_id = s.id; name = s.name; prompt = s.prompt; tools = s.tools }
      ∷ tasks m enabled db ss
    else tasks m enabled db ss

one_task :
    (m : Manager) (enabled : Bool) (s : AgentSchedule) (agent : Option Agent)
    (rest : List ScheduledTaskFrame)
    → frames_of m s (gate m enabled s agent) ++ rest ≡ (
        if goes_out m enabled agent s.agent_slug
        then record { schedule_id = s.id; name = s.name; prompt = s.prompt; tools = s.tools } ∷ rest
        else rest)
one_task m enabled s none rest = elim (Bool-cases enabled) [ inl e ↦ rw e refl | inr e ↦ rw e refl ]
one_task m enabled s (some agent) rest = elim (Bool-cases enabled) [
  | inr e ↦ rw e refl
  | inl e ↦ elim (Bool-cases agent.auto_paused) [
    | inl p ↦ rw (e, p) refl
    | inr p ↦ elim (Bool-cases (m.is_online s.agent_slug)) [
      | inr o ↦ rw (e, p, o) refl
      | inl o ↦ elim (Bool-cases (m.send_to_agent s.agent_slug)) [
        | inl t ↦ rw (e, p, o, t) refl
        | inr t ↦ rw (e, p, o, t) refl
      ]
    ]
  ]
]

pub frames-tasks :
    (m : Manager) (enabled : Bool) (db : Db) (ss : List AgentSchedule)
    → frames m enabled db ss ≡ tasks m enabled db ss
frames-tasks m enabled db [] = refl
frames-tasks m enabled db (s ∷ ss) =
    ap (λ r. frames_of m s (gate m enabled s (get_agent s.agent_slug db)) ++ r)
      (frames-tasks m enabled db ss)
    ∙ one_task m enabled s (get_agent s.agent_slug db) (tasks m enabled db ss)

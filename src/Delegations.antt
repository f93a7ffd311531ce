-- ===== src/Delegations.antt =====
-- Task delegation between agents (hub/app/services/delegation_service.py and its repository). The
-- sender of the task is injected into the service, and is an argument here; the kanban service is
-- built without notifications.
pub mod Kept
pub mod Cap
use Prim.Native.String.{◌++◌ as append}
use ampla.Shared.{
  ℕ, zero, suc, String, Bool, true, false, not, ◌&&◌, ◌||◌, ◌==◌, eq_string, Option, none, some,
  List, [], ◌∷◌, ◌++◌, map, select, order_by, take, length, min, max, nat_eq, ltb, leb,
  if◌then◌else◌,
}
use ampla.Text.{strip, is_empty}
use ampla.Models.{Agent, Message, Delegation, DelegationStatus, open_, declined, Origin}
use ampla.Hub.{Db, Env}
use ampla.Hub.Exec.{
  Service, Result, ok, err, hung, Exception, pure, gets, raise_if, attempt, audit, ◌>>=◌, ◌>>◌,
  permission_denied, invalid_input,
}
use ampla.Kanban.Access.{get_agent}
use ampla.Kanban.Events.{create_card_for_event}
use ampla.Messages.Repo.{is_open}

-- ---- the repository ----

unfoldable pub add_delegation : Delegation → Service Delegation
add_delegation d db = (ok d, record db { delegations = db.delegations ++ d ∷ [] })

abbrev pub is_open_from : String → Delegation → Bool
is_open_from from_agent d = d.from_agent == from_agent && is_open d.status

unfoldable pub count_open_from : String → Db → ℕ
count_open_from from_agent db = length (select (is_open_from from_agent) db.delegations)

abbrev newer : Delegation → Delegation → Bool
newer a b =
    if nat_eq a.created_at b.created_at then leb b.id a.id else ltb b.created_at a.created_at

unfoldable pub delegations_of : String → ℕ → Db → List Delegation
delegations_of agent_slug limit db = take limit (
    order_by newer (
      select (λ (d : Delegation). d.from_agent == agent_slug || d.to_agent == agent_slug)
        db.delegations))

-- ---- the service ----

-- from, to and body
abbrev pub TaskSender : Type 0
TaskSender = String → String → String → Service Message

-- DEFAULT_MAX_OPEN
abbrev pub max_open : ℕ
max_open = 20

-- MAX_TASK_LEN (hub/app/schemas/delegation.py)
abbrev pub max_task_len : ℕ
max_task_len = 2000

-- `s[:n]`
abbrev pub take_chars : ℕ → String → String
take_chars zero s = String.[]
take_chars (suc n) String.[] = String.[]
take_chars (suc n) (String.◌∷◌ c s) = String.◌∷◌ c (take_chars n s)

-- `_build_body`
abbrev pub build_body : String → String → String → String
unfolding strip
build_body delegator task context = append "[Tarefa delegada por " (
    append delegator (
      append "]\n" (
        append (strip task)
          (if is_empty (strip context) then "" else append "\n\nContexto:\n" (strip context)))))

abbrev pub new_delegation :
    Env → String → String → String → Option ℕ → DelegationStatus → Db → Delegation
new_delegation env from_slug to task root status db = record {
  id = env.new_id (map (λ (d : Delegation). d.id) db.delegations);
  from_agent = from_slug;
  to_agent = to;
  task = task;
  root_message_id = root;
  result_message_id = none;
  status = status;
  created_at = env.now;
  updated_at = env.now;
}

-- A KanbanService without notifications.
abbrev quiet : Env → Env
quiet env = record env { kanban_notifies = false }

abbrev pub event_card_for :
    Env → String → String → String → String → ℕ → Option Agent → Service Unit
event_card_for env from_slug to headline body delegation_id none = pure tt
event_card_for env from_slug to headline body delegation_id (some delegate) = attempt (
    create_card_for_event (quiet env) delegate.user_id "auto_card_on_delegation"
      (append "[Delegado por " (append from_slug (append "] " headline))) body (some to)
      (Origin.delegation delegation_id) "normal")

-- `_maybe_event_card`
unfoldable pub maybe_event_card : Env → String → String → String → String → ℕ → Service Unit
maybe_event_card env from_slug to headline body delegation_id = do
  delegate ← gets (get_agent to)
  event_card_for env from_slug to headline body delegation_id delegate

abbrev pub opened : Env → String → String → String → String → Message → Service (Option Delegation)
opened env from_slug to headline body m = do
  d ← gets (new_delegation env from_slug to headline (some m.id) open_)
  add_delegation d
  audit "delegation_created" from_slug
  maybe_event_card env from_slug to headline body d.id
  pure (some d)

abbrev pub refused : Env → String → String → String → Service (Option Delegation)
refused env from_slug to headline = do
  d ← gets (new_delegation env from_slug to headline none declined)
  add_delegation d
  audit "delegation_declined" from_slug
  pure (some d)

-- `try: … except PermissionDeniedError`
abbrev pub record_task :
    Env → String → String → String → String → Result Message × Db → Result (Option Delegation) × Db
record_task env from_slug to headline body (ok m, db) = opened env from_slug to headline body m db
record_task env from_slug to headline body (err permission_denied, db) =
    refused env from_slug to headline db
record_task env from_slug to headline body (err e, db) = (err e, db)
record_task env from_slug to headline body (hung, db) = (hung, db)

abbrev pub hand_over :
    TaskSender
    → Env
    → String
    → String
    → String
    → String
    → Option Agent
    → Service (Option Delegation)
hand_over sender env from_slug to headline body none = pure none
hand_over sender env from_slug to headline body (some delegator) = do
  raise_if (from_slug == to) invalid_input
  count ← gets (count_open_from from_slug)
  raise_if (leb max_open count) invalid_input
  (λ db. record_task env from_slug to headline body (sender from_slug to body db))

unfoldable pub delegate :
    TaskSender → Env → String → String → String → String → Service (Option Delegation)
unfolding strip build_body
delegate sender env from_slug to task context = do
  delegator ← gets (get_agent from_slug)
  hand_over sender env from_slug to (take_chars max_task_len (strip task))
      (build_body from_slug task context) delegator

unfoldable pub delegations_for_agent : String → ℕ → Service (List Delegation)
delegations_for_agent agent_slug limit = gets (delegations_of agent_slug (min (max limit 1) 200))

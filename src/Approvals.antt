-- ===== src/Approvals.antt =====
-- Human approval of drafted replies (hub/app/services/approval_service.py and its repository). The
-- sender of a reply is injected into the service, and is an argument here.
pub mod Decide
use Prim.Native.String.{◌++◌ as append}
use ampla.Shared.{
  ℕ, ◌-◌, ◌*◌, String, Bool, true, false, not, ◌&&◌, ◌==◌, eq_nat, eq_string, eq_int, Option, none,
  some, List, [], ◌∷◌, ◌++◌, map, select, find_row, update_rows, order_by, take, length, min, max,
  nat_eq, ltb, leb, if◌then◌else◌,
}
use ampla.Text.{is_empty, show}
use ampla.Models.{
  User, Agent, Message, Approval, ApprovalStatus, pending, approved, edited, rejected,
  approval_requested, is_admin,
}
use ampla.Hub.{Db, Env, second}
use ampla.Hub.Exec.{
  Service, Result, ok, pure, gets, raise_if, or_raise, attempt, for_each, when, audit, ◌>>=◌, ◌>>◌,
  not_found, permission_denied, invalid_input,
}
use ampla.Inbox.Notify.{notify}
use ampla.Kanban.Access.{get_agent}

-- ---- the repository ----

abbrev pub is_pending : ApprovalStatus → Bool
is_pending pending = true
is_pending _ = false

abbrev pub status_eq : ApprovalStatus → ApprovalStatus → Bool
status_eq pending pending = true
status_eq approved approved = true
status_eq edited edited = true
status_eq rejected rejected = true
status_eq _ _ = false

unfoldable pub add_approval : Approval → Service Approval
add_approval a db = (ok a, record db { approvals = db.approvals ++ a ∷ [] })

abbrev pub get_approval : ℕ → Db → Option Approval
get_approval approval_id db = find_row (λ (a : Approval). a.id == approval_id) db.approvals

unfoldable pub save_approval : Approval → Service Unit
save_approval a db = (
  ok tt,
  record db { approvals = update_rows (λ (b : Approval). b.id == a.id) (λ _. a) db.approvals },
)

abbrev has_status : Option ApprovalStatus → Approval → Bool
has_status none a = true
has_status (some s) a = status_eq a.status s

abbrev newer : Approval → Approval → Bool
newer a b =
    if nat_eq a.created_at b.created_at then leb b.id a.id else ltb b.created_at a.created_at

unfoldable pub approvals_of : String → Option ApprovalStatus → ℕ → Db → List Approval
approvals_of agent_slug status limit db = take limit (
    order_by newer
      (select (λ (a : Approval). a.agent_slug == agent_slug && has_status status a) db.approvals))

abbrev pub pending_before : ℕ → Approval → Bool
pending_before cutoff a = is_pending a.status && ltb a.created_at cutoff

unfoldable pub list_pending_before : ℕ → Db → List Approval
list_pending_before cutoff db = select (pending_before cutoff) db.approvals

-- ---- the service ----

-- from, to, body and the message replied to
abbrev pub Sender : Type 0
Sender = String → String → String → Option ℕ → Service Message

approval_key : ℕ → String
unfolding show
approval_key id = append "approval:" (show id)

abbrev request_for :
    Env → String → String → String → Option ℕ → Option Agent → Service (Option Approval)
request_for env agent_slug to draft_body trigger_message_id none = pure none
request_for env agent_slug to draft_body trigger_message_id (some agent) = do
  id ← gets (λ db. env.new_id (map (λ (a : Approval). a.id) db.approvals))
  approval ← add_approval (record {
    id = id;
    agent_slug = agent_slug;
    to_agent = to;
    draft_body = draft_body;
    trigger_message_id = trigger_message_id;
    status = pending;
    decided_by = none;
    decided_at = none;
    created_at = env.now;
  })
  attempt (
      notify env agent.user_id (record {
        subject_type = "approval";
        subject_key = approval_key approval.id;
        reason = approval_requested;
        title =
            append agent_slug (append " quer responder a " (append to " — aguardando aprovação"));
        link = append "/?perspective=" (append agent_slug (append "&partner=" to));
        actor = agent_slug;
        agent_slug = some agent_slug;
      }))
  pure (some approval)

unfoldable pub create_request :
    Env → String → String → String → Option ℕ → Service (Option Approval)
unfolding approval_key
create_request env agent_slug to draft_body trigger_message_id = do
  agent ← gets (get_agent agent_slug)
  request_for env agent_slug to draft_body trigger_message_id agent

-- `_owned`
abbrev pub manages : User → Agent → Bool
manages actor agent = if agent.user_id == actor.id then true else is_admin actor.role

unfoldable pub owned_agent : User → String → Service Agent
owned_agent actor agent_slug = do
  found ← gets (get_agent agent_slug)
  agent ← or_raise found not_found
  raise_if (not (manages actor agent)) permission_denied
  pure agent

-- MAX_LIMIT
abbrev max_limit : ℕ
max_limit = 100

unfoldable pub approvals_for_agent :
    User → String → Option ApprovalStatus → ℕ → Service (List Approval)
approvals_for_agent actor agent_slug status limit = do
  owned_agent actor agent_slug
  gets (approvals_of agent_slug status (min (max limit 1) max_limit))

pub data Decision : Type 0 where
  approve reject : Decision

-- `body or approval.draft_body`
abbrev pub final_body : Option String → Approval → String
final_body none a = a.draft_body
final_body (some body) a = if is_empty body then a.draft_body else body

abbrev pub status_after : Decision → Option String → ApprovalStatus
status_after reject body = rejected
status_after approve none = approved
status_after approve (some body) = if is_empty body then approved else edited

abbrev pub decided : Env → User → Decision → Option String → Approval → Approval
decided env actor decision body a = record a {
  status = status_after decision body;
  decided_by = some actor.id;
  decided_at = some env.now;
}

-- Nothing is sent on a rejection.
abbrev pub reply : Sender → Approval → Decision → Option String → Service (Option Message)
reply sender a reject body = pure none
reply sender a approve body = do
  m ← sender a.agent_slug a.to_agent (final_body body a) a.trigger_message_id
  pure (some m)

unfoldable pub decide :
    Sender → Env → User → ℕ → Decision → Option String → Service (Approval × Option Message)
decide sender env actor approval_id decision body = do
  found ← gets (get_approval approval_id)
  a ← or_raise found not_found
  owned_agent actor a.agent_slug
  raise_if (not (is_pending a.status)) invalid_input
  m ← reply sender a decision body
  save_approval (decided env actor decision body a)
  audit "approval_decided" actor.email
  pure (decided env actor decision body a, m)

abbrev pub expired : Env → Approval → Approval
expired env a = record a { status = rejected; decided_at = some env.now }

-- timedelta(hours=1), in microseconds
abbrev pub hour : ℕ
hour = 3600 * second

unfoldable pub expire_pending : Env → ℕ → Service ℕ
expire_pending env ttl_hours = if nat_eq ttl_hours 0 then pure 0 else (do
  stale ← gets (list_pending_before (env.now - ttl_hours * hour))
  for_each (λ a. save_approval (expired env a)) stale
  when (ltb 0 (length stale)) (audit "approvals_expired" "")
  pure (length stale))

-- ===== src/Autorespond.antt =====
-- The transcript of automatic replies and its escalation (hub/app/services/autorespond_service.py,
-- repositories/autorespond_repo.py). The service is built with agents, notifications and a
-- KanbanService without notifications, as hub/app/api/deps.py does for the sockets.
pub mod Recorded
use Prim.Native.String.{◌++◌ as append}
use ampla.Shared.{
  ℕ, String, Bool, true, false, not, ◌&&◌, ◌||◌, ◌==◌, eq_nat, eq_string, Option, none, some, List,
  [], ◌∷◌, ◌++◌, map, select, order_by, any, take, min, max, leb, ltb, if◌then◌else◌,
}
use ampla.Text.{show, show_int}
use ampla.Models.{
  Agent, AutorespondRun, RunResult, replied, blocked, failed, skipped, Origin, Reason, Cost,
}
use ampla.Hub.{Db, Env}
use ampla.Hub.Exec.{Service, ok, pure, gets, attempt, ◌>>=◌, ◌>>◌}
use ampla.Inbox.Notify.{Event, notify}
use ampla.Kanban.Access.{get_agent}
use ampla.Kanban.Events.{create_card_for_event}

-- AutorespondRecord (hub/app/schemas/ws.py), less the snapshot of the guardrails.
pub record AutorespondRecord : Type 0 where
  pub trigger_message_id : Option ℕ
  pub from_sender : String
  pub result : RunResult
  pub reason : Option String
  pub reply_preview : String
  pub tools_allowed : String
  pub tools_disallowed : String
  pub duration_ms : ℕ
  pub timed_out : Bool
  pub input_tokens : Option ℕ
  pub output_tokens : Option ℕ
  pub cost_usd : Option Cost

-- ESCALATE_SENTINEL
abbrev pub escalate_sentinel : String
escalate_sentinel = "escalate"

-- _SKIPPED_OUTCOMES
abbrev pub skipped_outcomes : List String
skipped_outcomes = "rate_limited" ∷ "budget_exceeded" ∷ "outside_hours" ∷ []

abbrev pub among : String → List String → Bool
among s ss = any (λ t. t == s) ss

abbrev pub skip_outcome : Option String → Option (String × Bool)
skip_outcome none = none
skip_outcome (some reason) =
    if reason == escalate_sentinel
    then some (escalate_sentinel, true)
    else if among reason skipped_outcomes
    then some (reason, false)
    else none

-- The outcome, and whether it is forced.
abbrev pub escalation_outcome : AutorespondRecord → Option (String × Bool)
escalation_outcome r = elim r.result [
  | failed ↦ some ("failed", false)
  | blocked ↦ some ("blocked", false)
  | skipped ↦ skip_outcome r.reason
  | replied ↦ none
]

-- _ESCALATION_TITLES, with its two places filled
unfoldable pub escalation_title : String → String → String → String
escalation_title token agent sender =
    if token == "failed"
    then append agent
        (append " não conseguiu responder a " (append sender " (falha no auto-respond)"))
    else if token == "blocked"
    then append "Resposta de "
        (append agent (append " a " (append sender " bloqueada pelo filtro de segurança")))
    else if token == "rate_limited"
    then append agent
        (append " atingiu o limite de respostas — mensagem de " (append sender " aguardando"))
    else if token == "budget_exceeded"
    then append agent
        (append " estourou o orçamento diário — mensagem de " (append sender " aguardando"))
    else if token == "outside_hours"
    then append agent (append " está fora do horário — mensagem de " (append sender " aguardando"))
    else append agent (append " encaminhou uma mensagem de " (append sender " para você decidir"))

-- ---- the repository ----

unfoldable pub add_run : AutorespondRun → Service AutorespondRun
add_run r db = (ok r, record db { runs = db.runs ++ r ∷ [] })

abbrev later_run : AutorespondRun → AutorespondRun → Bool
later_run a b = ltb b.created_at a.created_at || a.created_at == b.created_at && leb b.id a.id

unfoldable pub runs_for_agent : String → ℕ → Db → List AutorespondRun
runs_for_agent agent_slug limit db =
    take limit
      (order_by later_run (select (λ (r : AutorespondRun). r.agent_slug == agent_slug) db.runs))

unfoldable pub all_runs : ℕ → Db → List AutorespondRun
all_runs limit db = take limit (order_by later_run db.runs)

-- ---- the service ----

abbrev pub new_run : Env → String → AutorespondRecord → Db → AutorespondRun
new_run env agent_slug r db = record {
  id = env.new_id (map (λ (x : AutorespondRun). x.id) db.runs);
  agent_slug = agent_slug;
  trigger_message_id = r.trigger_message_id;
  from_sender = r.from_sender;
  result = r.result;
  reason = r.reason;
  reply_preview = r.reply_preview;
  tools_allowed = r.tools_allowed;
  tools_disallowed = r.tools_disallowed;
  duration_ms = r.duration_ms;
  timed_out = r.timed_out;
  input_tokens = r.input_tokens;
  output_tokens = r.output_tokens;
  cost_usd = r.cost_usd;
  created_at = env.now;
}

abbrev message_suffix : Option ℕ → String
message_suffix none = ""
message_suffix (some id) = append "&msg=" (show id)

-- The event on the inbox thread of the conversation.
abbrev pub escalation_event : String → AutorespondRecord → String → Event
escalation_event agent_slug r token = record {
  subject_type = "escalation";
  subject_key = append "dm:" (append agent_slug (append ":" r.from_sender));
  reason = Reason.escalation;
  title = escalation_title token agent_slug r.from_sender;
  link = append "/?perspective=" (
      append agent_slug
        (append "&partner=" (append r.from_sender (message_suffix r.trigger_message_id))));
  actor = agent_slug;
  agent_slug = some agent_slug;
}

unfoldable pub escalate : Env → String → AutorespondRecord → String → Agent → Service Unit
escalate env agent_slug r token agent = do
  attempt (notify env agent.user_id (escalation_event agent_slug r token))
  attempt (
      create_card_for_event (record env { kanban_notifies = false }) agent.user_id
        "auto_card_on_escalation" (escalation_title token agent_slug r.from_sender) r.reply_preview
        (some (append "user:" (show_int agent.user_id)))
        (Origin.escalation r.from_sender agent_slug) "high")

-- The owner opted into the outcome, or it is forced.
abbrev pub opted_in : String → Bool → Agent → Bool
opted_in token forced agent = if forced then true else among token agent.escalate_on

abbrev pub escalate_to :
    Env → String → AutorespondRecord → String → Bool → Option Agent → Service Unit
escalate_to env agent_slug r token forced none = pure tt
escalate_to env agent_slug r token forced (some agent) =
    if opted_in token forced agent then escalate env agent_slug r token agent else pure tt

abbrev pub escalate_outcome :
    Env → String → AutorespondRecord → Option (String × Bool) → Service Unit
escalate_outcome env agent_slug r none = pure tt
escalate_outcome env agent_slug r (some (token, forced)) =
    gets (get_agent agent_slug) >>= escalate_to env agent_slug r token forced

-- `_maybe_escalate`
unfoldable pub maybe_escalate : Env → String → AutorespondRecord → Service Unit
maybe_escalate env agent_slug r = escalate_outcome env agent_slug r (escalation_outcome r)

unfoldable pub record_run : Env → String → AutorespondRecord → Service AutorespondRun
record_run env agent_slug r = do
  row ← gets (new_run env agent_slug r)
  saved ← add_run row
  maybe_escalate env agent_slug r
  pure saved

-- MAX_LIMIT
abbrev max_rows : ℕ
max_rows = 200

unfoldable pub list_runs_for_agent : String → ℕ → Service (List AutorespondRun)
list_runs_for_agent agent_slug limit = gets (runs_for_agent agent_slug (min (max limit 1) max_rows))

unfoldable pub list_all_runs : ℕ → Service (List AutorespondRun)
list_all_runs limit = gets (all_runs (min (max limit 1) max_rows))

-- ===== src/Messages/Effects.antt =====
-- What a message that was sent brings with it (hub/app/services/message_service.py): the audit of
-- notable sends, the notifications, and the delegation that a reply completes.
use Prim.Native.String.{◌++◌ as append}
use ampla.Shared.{
  ℕ, String, Bool, true, false, not, ◌||◌, ◌==◌, eq_string, eq_int, Option, none, some,
  if◌then◌else◌,
}
use ampla.Text.{is_empty, show}
use ampla.Mentions.{parse_mentions}
use ampla.Models.{
  Agent, Message, MessageType, Delegation, completed, Origin, Reason, broadcast, task_assigned,
  direct_message, mention,
}
use ampla.Hub.{Env}
use ampla.Hub.Exec.{Service, pure, gets, when, for_each, attempt, audit, ◌>>=◌, ◌>>◌}
use ampla.Inbox.Notify.{notify}
use ampla.Kanban.Access.{get_agent}
use ampla.Kanban.Events.{complete_card_for_event}
use ampla.Messages.Repo.{find_open_for_reply, save_delegation}

abbrev is_none : Option String → Bool
is_none none = true
is_none (some g) = false

-- The sender exists and belongs to another user than the recipient.
abbrev pub cross_owner : Agent → Option Agent → Bool
cross_owner recipient none = false
cross_owner recipient (some sender) = not (sender.user_id == recipient.user_id)

abbrev is_alert : MessageType → Bool
is_alert MessageType.alert = true
is_alert _ = false

-- `_audit_security_send`
unfoldable pub audit_security_send : Message → Agent → Service Unit
audit_security_send m recipient = do
  sender ← gets (get_agent m.from_agent)
  when (is_none m.group_slug)
      (when (is_alert m.type || cross_owner recipient sender) (audit "message_sent" m.from_agent))

-- f"/?perspective={a}&partner={b}&msg={id}"
conversation_link : String → String → ℕ → String
unfolding show
conversation_link a b id =
    append "/?perspective=" (append a (append "&partner=" (append b (append "&msg=" (show id)))))

conversation_key : String → String → String
conversation_key a b = append "dm:" (append a (append ":" b))

-- The subject type, the reason and the title for the recipient's owner.
abbrev Spec : Type 0
Spec = Option (String × Reason × String)

abbrev type_spec : Message → MessageType → Spec
type_spec m MessageType.task =
    some ("task", task_assigned, append m.from_agent (append " atribuiu uma tarefa a " m.to_agent))
type_spec m MessageType.request =
    some
      ("dm", direct_message, append m.from_agent (append " enviou uma mensagem para " m.to_agent))
type_spec m MessageType.notification =
    some
      ("dm", direct_message, append m.from_agent (append " enviou uma mensagem para " m.to_agent))
type_spec m MessageType.alert =
    some
      ("dm", direct_message, append m.from_agent (append " enviou uma mensagem para " m.to_agent))
type_spec m _ = none

-- An empty group is no group.
abbrev pub spec_of : Message → Option String → Spec
spec_of m none = type_spec m m.type
spec_of m (some g) =
    if is_empty g
    then type_spec m m.type
    else some ("broadcast", broadcast, append m.from_agent (append " transmitiu para " g))

abbrev tell_recipient : Env → Message → Agent → Spec → Service Unit
tell_recipient env m recipient none = pure tt
tell_recipient env m recipient (some (subject_type, reason, title)) = do
  notify env recipient.user_id (record {
    subject_type = subject_type;
    subject_key = conversation_key m.to_agent m.from_agent;
    reason = reason;
    title = title;
    link = conversation_link m.to_agent m.from_agent m.id;
    actor = m.from_agent;
    agent_slug = some m.to_agent;
  })
  pure tt

abbrev tell_mentioned : Env → Message → String → Option Agent → Service Unit
tell_mentioned env m slug none = pure tt
tell_mentioned env m slug (some mentioned) = do
  notify env mentioned.user_id (record {
    subject_type = "mention";
    subject_key = conversation_key slug m.from_agent;
    reason = mention;
    title = append m.from_agent (append " mencionou @" slug);
    link = conversation_link slug m.from_agent m.id;
    actor = m.from_agent;
    agent_slug = some slug;
  })
  pure tt

abbrev mention_one : Env → Message → String → Service Unit
mention_one env m slug = do
  mentioned ← gets (get_agent slug)
  if slug == m.from_agent || slug == m.to_agent
      then pure tt
      else tell_mentioned env m slug mentioned

-- `_generate_notifications`
unfoldable pub generate_notifications : Env → Message → Agent → Service Unit
unfolding conversation_key conversation_link
generate_notifications env m recipient = attempt (do
  tell_recipient env m recipient (spec_of m m.group_slug)
  for_each (mention_one env m) (parse_mentions m.body))

abbrev tell_delegator : Env → Message → Delegation → Option Agent → Service Unit
tell_delegator env m d none = pure tt
tell_delegator env m d (some delegator) = do
  notify env delegator.user_id (record {
    subject_type = "dm";
    subject_key = conversation_key d.from_agent d.to_agent;
    reason = task_assigned;
    title = append d.to_agent " respondeu à tarefa que você delegou";
    link = conversation_link d.from_agent d.to_agent m.id;
    actor = d.to_agent;
    agent_slug = some d.from_agent;
  })
  pure tt

abbrev pub completed_by : Env → Message → Delegation → Delegation
completed_by env m d = record d {
  status = completed;
  result_message_id = some m.id;
  updated_at = env.now;
}

abbrev complete : Env → Message → Option Delegation → Service Unit
complete env m none = pure tt
complete env m (some d) = do
  save_delegation (completed_by env m d)
  complete_card_for_event env (Origin.delegation d.id) "system"
  delegator ← gets (get_agent d.from_agent)
  tell_delegator env m d delegator

abbrev complete_in_thread : Env → Message → Option ℕ → Service Unit
complete_in_thread env m none = pure tt
complete_in_thread env m (some thread_id) =
    attempt (do
      found ← gets (find_open_for_reply m.to_agent m.from_agent thread_id)
      complete env m found)

-- `_maybe_complete_delegation`
unfoldable pub maybe_complete_delegation : Env → Message → Service Unit
unfolding conversation_key conversation_link
maybe_complete_delegation env m = complete_in_thread env m m.thread_id

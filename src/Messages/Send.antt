-- ===== src/Messages/Send.antt =====
-- Sending (hub/app/services/message_service.py).
use Prim.Native.Char.{len_utf8}
use ampla.Shared.{
  ℕ, zero, suc, ◌+◌, ◌*◌, String, Bool, true, false, not, ◌&&◌, ◌||◌, ◌==◌, eq_string, eq_int,
  Option, none, some, List, [], ◌∷◌, ◌++◌, any, ltb, if◌then◌else◌,
}
use ampla.Text.{strip, is_empty}
use ampla.Models.{User, Agent, Message, MessageType, is_admin}
use ampla.Hub.{Db, Env, second}
use ampla.Hub.Exec.{
  Service, Result, ok, err, hung, pure, gets, raise, raise_if, or_raise, audit, ◌>>=◌, ◌>>◌,
  not_found, permission_denied, invalid_input,
}
use ampla.Kanban.Access.{get_agent}
use ampla.Messages.Repo.{new_message_id, add_message, get_message}
use ampla.Messages.Effects.{audit_security_send, generate_notifications, maybe_complete_delegation}

-- `len(body.encode())`
abbrev pub encoded_length : String → ℕ
encoded_length String.[] = 0
encoded_length (String.◌∷◌ c s) = len_utf8 c + encoded_length s

-- The arguments of `send`.
pub record Draft : Type 0 where
  pub from_slug : String
  pub to_slug : String
  pub body : String
  pub type : MessageType
  pub priority : String
  pub in_reply_to : Option ℕ
  pub group : Option String

-- `allowed_senders is None or from_slug in allowed_senders`
abbrev pub allows : Option (List String) → String → Bool
allows none from_slug = true
allows (some senders) from_slug = any (λ s. s == from_slug) senders

abbrev pub refuse : Draft → Service Unit
refuse d = do audit "message_blocked_allowlist" d.from_slug; raise permission_denied

-- The two participants are those of the message, which are not the same agent.
abbrev pub same_conversation : Draft → Message → Bool
same_conversation d parent =
    parent.from_agent == d.from_slug && parent.to_agent == d.to_slug
    || parent.from_agent == d.to_slug && parent.to_agent == d.from_slug

-- `parent.thread_id or parent.id`
abbrev pub thread_or_id : Option ℕ → ℕ → ℕ
thread_or_id none id = id
thread_or_id (some zero) id = id
thread_or_id (some (suc n)) id = suc n

abbrev pub thread_under : Draft → Option Message → Service (Option ℕ)
thread_under d none = raise invalid_input
thread_under d (some parent) =
    if same_conversation d parent
    then pure (some (thread_or_id parent.thread_id parent.id))
    else raise invalid_input

unfoldable pub thread_for : Draft → Option ℕ → Service (Option ℕ)
thread_for d none = pure none
thread_for d (some parent_id) = do parent ← gets (get_message parent_id); thread_under d parent

-- timedelta(days=1), in microseconds
abbrev day : ℕ
day = 24 * 3600 * second

abbrev pub new_message : Env → Draft → Option ℕ → ℕ → Message
new_message env d thread_id id = record {
  id = id;
  from_agent = d.from_slug;
  to_agent = d.to_slug;
  body = d.body;
  type = d.type;
  priority = d.priority;
  group_slug = d.group;
  thread_id = thread_id;
  in_reply_to = d.in_reply_to;
  created_at = env.now;
  delivered_at = none;
  expires_at = some (env.now + env.pending_ttl_days * day);
}

-- What `send` checks before it stores the message: the recipient.
unfoldable pub check_send : Env → Draft → Service Agent
check_send env d = do
  raise_if (is_empty (strip d.body)) invalid_input
  raise_if (ltb env.message_max_body_bytes (encoded_length d.body)) invalid_input
  raise_if (d.from_slug == d.to_slug) invalid_input
  found ← gets (get_agent d.to_slug)
  recipient ← or_raise found not_found
  if allows recipient.allowed_senders d.from_slug then pure tt else refuse d
  pure recipient

unfoldable pub store_send : Env → Draft → Service Message
store_send env d = do
  thread_id ← thread_for d d.in_reply_to
  id ← gets (new_message_id env)
  add_message (new_message env d thread_id id)

abbrev closes_loop : Env → Option ℕ → Message → Service Unit
closes_loop env none m = pure tt
closes_loop env (some parent_id) m = maybe_complete_delegation env m

-- `send` up to the stored message.
unfoldable pub commit_send : Env → Draft → Service (Agent × Message)
commit_send env d = do recipient ← check_send env d; m ← store_send env d; pure (recipient, m)

abbrev after_send : Env → Draft → Agent × Message → Service Message
after_send env d (recipient, m) = do
  audit_security_send m recipient
  generate_notifications env m recipient
  closes_loop env d.in_reply_to m
  pure m

unfoldable pub send : Env → Draft → Service Message
send env d = do committed ← commit_send env d; after_send env d committed

-- ---- broadcasts ----

abbrev pub Sent : Type 0
Sent = List Message × List String

-- What the loop does with the outcome for a recipient: a blocked one is skipped.
abbrev pub settled : String → Sent → Result Message × Db → Result Sent × Db
settled slug (sent, skipped) (ok m, db) = (ok (sent ++ m ∷ [], skipped), db)
settled slug (sent, skipped) (err permission_denied, db) = (ok (sent, skipped ++ slug ∷ []), db)
settled slug so_far (err e, db) = (err e, db)
settled slug so_far (hung, db) = (hung, db)

unfoldable pub fan_out : Env → Draft → List String → Sent → Service Sent
fan_out env d [] so_far = pure so_far
fan_out env d (slug ∷ slugs) so_far = do
  next ← (λ db. settled slug so_far (send env (record d { to_slug = slug }) db))
  fan_out env d slugs next

abbrev is_nil : List String → Bool
is_nil [] = true
is_nil (x ∷ xs) = false

-- The draft names the group; its recipient is set for each message.
unfoldable pub send_broadcast : Env → Draft → List String → Service Sent
send_broadcast env d recipients = do
  raise_if (is_nil recipients) invalid_input
  result ← fan_out env d recipients ([], [])
  audit "broadcast_sent" d.from_slug
  pure result

-- ---- on behalf of a user ----

-- `_assert_sender_owned`
unfoldable pub assert_sender_owned : User → String → Service Unit
assert_sender_owned actor from_slug = do
  found ← gets (get_agent from_slug)
  sender ← or_raise found not_found
  raise_if (not (sender.user_id == actor.id) && not (is_admin actor.role)) permission_denied

unfoldable pub send_as_user : Env → User → Draft → Service Message
send_as_user env actor d = do assert_sender_owned actor d.from_slug; send env d

unfoldable pub broadcast_as_user : Env → User → Draft → List String → Service Sent
broadcast_as_user env actor d recipients = do
  assert_sender_owned actor d.from_slug
  send_broadcast env d recipients

-- ===== src/Sockets/Handlers.antt =====
-- What the frames of a daemon do (hub/app/api/routes/ws.py). Everything is attributed to the
-- authenticated slug of the connection. The notifications that a service pushes to the observers of a
-- user while it runs are left out.
use ampla.Shared.{
  ℕ, String, Bool, true, false, Option, none, some, List, [], ◌∷◌, map, if◌then◌else◌, pos,
}
use ampla.Models.{UserId, Message, MessageType, KanbanBoard, Delegation, is_team}
use ampla.Hub.{Db, Env}
use ampla.Hub.Exec.{Service, pure, raise, ◌>>=◌, invalid_input}
use ampla.RateLimit.{allow}
use ampla.Messages.Repo.{get_message}
use ampla.Messages.Send.{Draft, Sent, send, send_broadcast}
use ampla.Messages.History.{ack_delivery}
use ampla.Agents.Groups.{resolve_recipients}
use ampla.Approvals.{create_request}
use ampla.Delegations.{TaskSender, delegate}
use ampla.Autorespond.{AutorespondRecord, record_run}
use ampla.Schedules.Service.{record_report}
use ampla.Kanban.Agents.{
  agent_create_card, agent_move_card, agent_comment, get_board_raw, board_of_card, board_member_ids,
}
use ampla.Sockets.{send_to_agent, notify_message, notify_board}
use ampla.Sockets.Frames.{
  ServerFrame, message_delivery, delivered, broadcast_result, kanban_delta, SendMessageFrame,
  Change, card_created, card_moved, comment_added, KanbanAction, create_card, move_card, comment,
}
use ampla.Sockets.Server.{
  Server, Moment, After, goes_on, in_session, manage, answer, send_error, or_error, or_leave,
  carry_on, dispatch,
}

abbrev drafted : String → SendMessageFrame → Option String → Draft
drafted slug f group = record {
  from_slug = slug;
  to_slug = f.to;
  body = f.body;
  type = f.msg_type;
  priority = f.priority;
  in_reply_to = f.in_reply_to;
  group = group;
}

-- `_delegation_sender` (hub/app/api/deps.py): the task is sent as the delegator.
abbrev pub task_sender : Env → TaskSender
task_sender env from_slug to_slug body = send env (record {
  from_slug = from_slug;
  to_slug = to_slug;
  body = body;
  type = MessageType.task;
  priority = "normal";
  in_reply_to = none;
  group = none;
})

-- The message of the task, which the sender has dispatched, if one was sent.
abbrev pub task_of : Option Delegation → Db → Option Message
task_of none db = none
task_of (some d) db = elim d.root_message_id [ none ↦ none | some id ↦ get_message id db ]

-- ---- boards ----

abbrev board_id_or : ℕ → Option KanbanBoard → ℕ
board_id_or board_id none = board_id
board_id_or board_id (some b) = b.id

abbrev owner_or_none : Option KanbanBoard → UserId
owner_or_none none = pos 0
owner_or_none (some b) = b.owner_id

abbrev of_team : Option KanbanBoard → Bool
of_team none = false
of_team (some b) = is_team b.visibility

-- The action and its delta.
abbrev applied : Env → String → ℕ → KanbanAction → Service (ℕ × Change)
applied env slug board_id (create_card none) = raise invalid_input
applied env slug board_id (create_card (some body)) = do
  card ← agent_create_card env slug board_id body
  pure (card.board_id, card_created card)
applied env slug board_id (move_card none) = raise invalid_input
applied env slug board_id (move_card (some (card_id, mv))) = do
  card ←
      agent_move_card env slug card_id mv.to_column_id mv.before_id mv.after_id mv.expected_version
  pure (card.board_id, card_moved card)
applied env slug board_id (comment none) = raise invalid_input
applied env slug board_id (comment (some (card_id, body))) = do
  c ← agent_comment env slug card_id body
  board ← board_of_card c.card_id
  pure (board_id_or board_id board, comment_added c)

-- The delta, and who may see it: `owner_id`, `is_team` and `member_ids`.
abbrev pub Delta : Type 0
Delta = ServerFrame × UserId × Bool × List UserId

-- `_apply`
unfoldable pub apply_action : Env → String → ℕ → KanbanAction → Service Delta
apply_action env slug board_id action = do
  done ← applied env slug board_id action
  board ← get_board_raw done.0
  members ← (if of_team board then pure [] else board_member_ids done.0)
  pure (kanban_delta done.0 done.1, owner_or_none board, of_team board, members)

module _ (t : Moment) (ws : ℕ) (slug : String) where
  unfoldable pub handle_send : SendMessageFrame → Server → After
  handle_send f s =
      or_error t ws (λ m after. (goes_on, (dispatch t m after).1))
        (in_session (send t.env (drafted slug f none)) s)

  abbrev pub confirmed : Option Message → Server → After
  confirmed none s = (goes_on, s)
  confirmed (some m) s = (
    goes_on,
    manage
        (λ n.
          notify_message t.alive (message_delivery m) m.from_agent m.to_agent
            (send_to_agent t.alive m.from_agent (delivered m.id m.to_agent) n).1)
        s,
  )

  unfoldable pub handle_ack : ℕ → Server → After
  handle_ack message_id s = or_leave confirmed (in_session (ack_delivery t.env slug message_id) s)

  unfoldable pub handle_autorespond_report : AutorespondRecord → Server → After
  handle_autorespond_report r s = or_leave carry_on (in_session (record_run t.env slug r) s)

  unfoldable pub handle_scheduled_task_report : ℕ → String → Server → After
  handle_scheduled_task_report schedule_id status s =
      or_leave carry_on (in_session (record_report t.env slug schedule_id status) s)

  unfoldable pub handle_approval_request : Option ℕ → String → String → Server → After
  handle_approval_request trigger_message_id to draft_body s =
      or_leave carry_on (in_session (create_request t.env slug to draft_body trigger_message_id) s)

  abbrev pub dispatched : Option Message → Server → After
  dispatched none s = (goes_on, s)
  dispatched (some m) s = (goes_on, (dispatch t m s).1)

  abbrev pub assigned : Option Delegation → Server → After
  assigned d s = dispatched (task_of d s.db) s

  unfoldable pub handle_delegate : String → String → String → Server → After
  handle_delegate to task context s =
      or_error t ws assigned
        (in_session (delegate (task_sender t.env) t.env slug to task context) s)

  abbrev pub notified : Delta → Server → After
  notified (delta, owner_id, team, member_ids) s =
      (goes_on, manage (notify_board t.alive delta owner_id team member_ids) s)

  unfoldable pub handle_kanban_action : ℕ → KanbanAction → Server → After
  handle_kanban_action board_id action s =
      or_error t ws notified (in_session (apply_action t.env slug board_id action) s)

  -- ---- broadcasts ----

  -- The recipients whose socket took no message.
  abbrev pub dispatch_all : List Message → Server → List String × Server
  dispatch_all [] s = ([], s)
  dispatch_all (m ∷ ms) s =
      let sent = dispatch t m s in
      let rest = dispatch_all ms sent.1 in (if sent.0 then rest.0 else m.to_agent ∷ rest.0, rest.1)

  abbrev pub fanned_out : SendMessageFrame → Sent → Server → After
  fanned_out f (sent, skipped) s =
      let pushed = dispatch_all sent s in
      answer t ws (broadcast_result f.to (map (λ (m : Message). m.to_agent) sent) skipped pushed.0)
        pushed.1

  abbrev pub addressed : SendMessageFrame → Service Sent
  addressed f = do
    recipients ← resolve_recipients f.to slug
    send_broadcast t.env (drafted slug f (some f.to)) recipients

  abbrev pub within_limit : SendMessageFrame → Bool → Server → After
  within_limit f false s = send_error t ws "rate_limited" s
  within_limit f true s = elim f.in_reply_to [
    | some id ↦ send_error t ws "invalid_input" s
    | none ↦ or_error t ws (fanned_out f) (in_session (addressed f) s)
  ]

  unfoldable pub handle_broadcast : SendMessageFrame → Server → After
  handle_broadcast f s =
      let granted = allow s.broadcast_limiter t.clock slug in
      within_limit f granted.0 (record s { broadcast_limiter = granted.1 })

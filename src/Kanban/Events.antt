-- ===== src/Kanban/Events.antt =====
-- Cards that the hub opens and closes for delegations and escalations
-- (hub/app/services/kanban_service.py).
use ampla.Shared.{ℕ, String, Option, none, some, if◌then◌else◌, ◌==◌, eq_string}
use ampla.Models.{UserId, KanbanBoard, KanbanColumn, KanbanCard, Origin, state_change}
use ampla.Hub.{Env}
use ampla.Hub.Exec.{Service, pure, gets, raise, audit, ◌>>=◌, ◌>>◌, invalid_input}
use ampla.Kanban.Tables.{
  Flag, auto_card_on_delegation, auto_card_on_escalation, first_board_with_flag, get_board,
  get_column, first_done_column,
}
use ampla.Kanban.Cards.{card_by_origin}
use ampla.Kanban.Inputs.{CardCreate}
use ampla.Kanban.CardOps.{append_card}
use ampla.Kanban.Move.{move, is_blocked, is_done_column}
use ampla.Kanban.Notices.{notify_assignee}

abbrev pub event_card :
    Env → ℕ → CardCreate → Origin → String → Option KanbanBoard → Service (Option KanbanCard)
event_card env board_id body origin audit_actor none = pure none
event_card env board_id body origin audit_actor (some b) = do
  c ← append_card env board_id body audit_actor (some origin)
  audit "kanban_card_created" audit_actor
  pure (some c)

unfoldable pub create_event_card :
    Env → ℕ → CardCreate → Origin → String → Service (Option KanbanCard)
create_event_card env board_id body origin audit_actor = do
  found ← gets (get_board board_id)
  event_card env board_id body origin audit_actor found

-- A flag that is neither of the two is refused.
abbrev pub parse_flag : String → Option Flag
parse_flag flag =
    if flag == "auto_card_on_delegation"
    then some auto_card_on_delegation
    else if flag == "auto_card_on_escalation"
    then some auto_card_on_escalation
    else none

abbrev pub on_opted_in :
    Env → CardCreate → Origin → Option KanbanBoard → Service (Option KanbanCard)
on_opted_in env body origin none = pure none
on_opted_in env body origin (some b) = create_event_card env b.id body origin "system"

abbrev pub flagged_card :
    Env → UserId → CardCreate → Origin → Option Flag → Service (Option KanbanCard)
flagged_card env owner_id body origin none = raise invalid_input
flagged_card env owner_id body origin (some flag) = do
  found ← gets (first_board_with_flag owner_id flag)
  on_opted_in env body origin found

unfoldable pub create_card_for_event :
    Env
    → UserId
    → String
    → String
    → String
    → Option String
    → Origin
    → String
    → Service (Option KanbanCard)
create_card_for_event env owner_id flag title body assignee origin priority =
    flagged_card env owner_id
      (record {
        title = title;
        body = body;
        column_id = none;
        assignee = assignee;
        priority = priority;
        origin = none;
      })
      origin (parse_flag flag)

-- ---- event card to Done ----

abbrev pub finish_card :
    Env → KanbanCard → String → Option KanbanColumn → Service (Option KanbanCard)
finish_card env c audit_actor none = pure none
finish_card env c audit_actor (some done) = do
  blocked ← gets (is_blocked c)
  if blocked then (do audit "kanban_event_card_done_blocked" audit_actor; pure none) else (do
    d ← move env c done.id none none c.version audit_actor
    audit "kanban_event_card_done" audit_actor
    notify_assignee env d state_change audit_actor
    pure (some d))

-- `_move_card_to_done`
unfoldable pub move_card_to_done : Env → KanbanCard → String → Service (Option KanbanCard)
move_card_to_done env c audit_actor = do
  column ← gets (get_column c.column_id)
  done ← gets (first_done_column c.board_id)
  if is_done_column column then pure none else finish_card env c audit_actor done

abbrev pub to_done : Env → String → Option KanbanCard → Service (Option KanbanCard)
to_done env audit_actor none = pure none
to_done env audit_actor (some c) = move_card_to_done env c audit_actor

-- The kind and the id are the origin looked for.
unfoldable pub complete_card_for_event : Env → Origin → String → Service (Option KanbanCard)
complete_card_for_event env origin audit_actor = do
  found ← gets (card_by_origin origin)
  to_done env audit_actor found

-- ===== src/Kanban/Agents.antt =====
-- What agents do on boards, and the look-ups of the socket layer
-- (hub/app/services/kanban_service.py).
use ampla.Shared.{
  ℕ, String, Bool, true, not, ◌==◌, eq_nat, Option, none, some, List, map, select, if◌then◌else◌,
  pos,
}
use ampla.Models.{
  UserId, KanbanBoard, KanbanColumn, KanbanCard, KanbanCardComment, KanbanBoardMember, is_no_role,
  state_change,
}
use ampla.Hub.{Db, Env}
use ampla.Hub.Exec.{Service, pure, gets, ◌>>=◌, ◌>>◌}
use ampla.Kanban.Tables.{list_visible_boards, get_board}
use ampla.Kanban.Cards.{get_card_row}
use ampla.Kanban.Inputs.{CardCreate}
use ampla.Kanban.Access.{
  view, create, move, comment, agent_role, agent_owns, require_agent_can, agent_board,
  existing_card,
}
use ampla.Kanban.Boards.{board_contents}
use ampla.Kanban.CardOps.{insert_card, insert_comment}
use ampla.Kanban.Move.{move as move_to}
use ampla.Kanban.Notices.{notify_assignee}

-- Boards on which the agent has a role.
unfoldable pub agent_list_boards : String → Service (List KanbanBoard)
agent_list_boards agent_slug = gets (λ db.
    select (λ b. not (is_no_role (agent_role b agent_slug db)))
      (list_visible_boards (pos 0) true db))

abbrev only_mine :
    Bool
    → String
    → KanbanBoard × List KanbanColumn × List KanbanCard
    → KanbanBoard × List KanbanColumn × List KanbanCard
only_mine mine agent_slug (b, columns, cards) =
    (b, columns, if mine then select (λ c. agent_owns c agent_slug) cards else cards)

unfoldable pub agent_get_board_full :
    String → ℕ → Bool → Service (KanbanBoard × List KanbanColumn × List KanbanCard)
agent_get_board_full agent_slug board_id mine = do
  b ← agent_board agent_slug board_id
  require_agent_can agent_slug b view none
  full ← board_contents b
  pure (only_mine mine agent_slug full)

unfoldable pub agent_create_card : Env → String → ℕ → CardCreate → Service KanbanCard
agent_create_card env agent_slug board_id body = do
  b ← agent_board agent_slug board_id
  require_agent_can agent_slug b create none
  insert_card env board_id body agent_slug agent_slug none

unfoldable pub agent_move_card : Env → String → ℕ → ℕ → Option ℕ → Option ℕ → ℕ → Service KanbanCard
agent_move_card env agent_slug card_id to_column_id before_id after_id expected_version = do
  c ← existing_card card_id
  b ← agent_board agent_slug c.board_id
  require_agent_can agent_slug b move (some c)
  done ← move_to env c to_column_id before_id after_id expected_version agent_slug
  notify_assignee env done state_change agent_slug
  pure done

unfoldable pub agent_comment : Env → String → ℕ → String → Service KanbanCardComment
agent_comment env agent_slug card_id body = do
  c ← existing_card card_id
  b ← agent_board agent_slug c.board_id
  require_agent_can agent_slug b comment none
  insert_comment env c body agent_slug agent_slug

-- ---- for the socket layer, without authorization ----

unfoldable pub get_board_raw : ℕ → Service (Option KanbanBoard)
get_board_raw board_id = gets (get_board board_id)

abbrev board_of : Db → Option KanbanCard → Option KanbanBoard
board_of db none = none
board_of db (some c) = get_board c.board_id db

unfoldable pub board_of_card : ℕ → Service (Option KanbanBoard)
board_of_card card_id = gets (λ db. board_of db (get_card_row card_id db))

unfoldable pub board_member_ids : ℕ → Service (List UserId)
board_member_ids board_id = gets (λ db.
    map (λ (m : KanbanBoardMember). m.user_id)
      (select (λ (m : KanbanBoardMember). m.board_id == board_id) db.members))

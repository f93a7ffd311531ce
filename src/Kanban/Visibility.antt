-- ===== src/Kanban/Visibility.antt =====
-- Who sees which board, and what a user who does not see or govern it is answered
-- (hub/app/services/kanban_service.py).
use ampla.Shared.{
  ℕ, ◌≡◌, ◌↔◌, String, true, eq_int, none, List, [], arith, select, In, In-select, In-order_by,
}
use ampla.Models.{User, UserId, KanbanBoard, AgentRole, is_admin}
use ampla.Hub.{Db, Env}
use ampla.Hub.Exec.{Result, ok, err, not_found}
use ampla.Kanban.Tables.{newer, get_board as get_board_row, listed, list_visible_boards}
use ampla.Kanban.Inputs.{BoardUpdate, ColumnCreate, ColumnUpdate, CardCreate}
use ampla.Kanban.Access.{human_can_see, can_see, seen_by, visible_board, owned_board}
use ampla.Kanban.Boards.{
  list_boards, get_board, get_board_full, update_board, delete_board, create_column, update_column,
  delete_column,
}
use ampla.Kanban.CardOps.{create_card}
use ampla.Kanban.Sharing.{
  list_members, add_member, remove_member, list_grants, authorize_grant, set_grant, remove_grant,
}

-- The WHERE clause of the list is the test for a single board.
listed-can_see :
    (user : User) (db : Db) (b : KanbanBoard)
    → listed user.id (is_admin user.role) db b ≡ can_see user b db
unfolding can_see human_can_see
listed-can_see user db b = ground arith

abbrev pub listed_boards : Result (List KanbanBoard) × Db → List KanbanBoard
listed_boards (ok bs, db) = bs
listed_boards _ = []

-- A board is in the list that a user gets exactly if it is in the database and the check of a single
-- board, which every other operation makes, lets that user see it.
pub list_boards-can_see :
    (user : User) (db : Db) (b : KanbanBoard)
    → In b (listed_boards (list_boards user db)) ↔ (In b db.boards × (can_see user b db ≡ true))
unfolding list_boards list_visible_boards
list_boards-can_see user db b =
    let found = In-order_by newer b (select (listed user.id (is_admin user.role) db) db.boards) in
    let kept = In-select (listed user.id (is_admin user.role) db) b db.boards in
    rw (← listed-can_see user db b) (λ h. kept.0 (found.0 h), λ h. found.1 (kept.1 h))

module _ (env : Env) (user : User) (board_id : ℕ) (db : Db) where
  -- A user who may not see the board, or asks for none that exists, is told `not found` by every
  -- operation that names a board, and nothing changes.
  pub hidden_board :
      (board : BoardUpdate) (new_column : ColumnCreate) (column : ColumnUpdate) (card : CardCreate)
      → (n : ℕ) (target : UserId) (slug : String) (role : AgentRole)
      → seen_by user db (get_board_row board_id db) ≡ none
      → (get_board user board_id db ≡ (err not_found, db))
        × (get_board_full user board_id db ≡ (err not_found, db))
        × (update_board user board_id board db ≡ (err not_found, db))
        × (delete_board user board_id db ≡ (err not_found, db))
        × (create_column env user board_id new_column db ≡ (err not_found, db))
        × (update_column user board_id n column db ≡ (err not_found, db))
        × (delete_column user board_id n db ≡ (err not_found, db))
        × (create_card env user board_id card db ≡ (err not_found, db))
        × (list_members user board_id db ≡ (err not_found, db))
        × (add_member env user board_id target db ≡ (err not_found, db))
        × (remove_member user board_id target db ≡ (err not_found, db))
        × (list_grants user board_id db ≡ (err not_found, db))
        × (set_grant env user board_id slug role db ≡ (err not_found, db))
        × (remove_grant user board_id slug db ≡ (err not_found, db))
  unfolding get_board get_board_full update_board delete_board create_column update_column
      delete_column create_card list_members add_member remove_member list_grants set_grant
      remove_grant authorize_grant owned_board visible_board
  hidden_board board new_column column card n target slug role h =
      (rw h, rw h, rw h, rw h, rw h, rw h, rw h, rw h, rw h, rw h, rw h, rw h, rw h, rw h)

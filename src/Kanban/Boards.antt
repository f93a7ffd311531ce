-- ===== src/Kanban/Boards.antt =====
-- Boards and columns (hub/app/services/kanban_service.py).
use ampla.Shared.{
  ℕ, String, Bool, true, false, Option, none, some, List, [], ◌∷◌, last, nat_eq, ltb, if◌then◌else◌,
}
use ampla.Text.{strip}
use ampla.Rank.{Rank, rank_between}
use ampla.Models.{User, KanbanBoard, KanbanColumn, KanbanCard, is_admin}
use ampla.Hub.{Env}
use ampla.Hub.Exec.{Service, pure, gets, raise_if, or_hang, when, audit, ◌>>=◌, ◌>>◌, conflict}
use ampla.Kanban.Tables.{
  new_board_id, add_board, list_visible_boards, save_board, delete_board as delete_board_rows,
  new_column_id, add_column, list_columns, save_column, clear_landing,
  delete_column as delete_column_row,
}
use ampla.Kanban.Cards.{list_cards, count_cards_in_column, deps_for_board}
use ampla.Kanban.Inputs.{BoardCreate, BoardUpdate, ColumnCreate, ColumnUpdate}
use ampla.Kanban.Access.{visible_board, owned_board, column_of_board}

-- DEFAULT_COLUMNS: name, is_landing, is_done
abbrev pub default_columns : List (String × Bool × Bool)
default_columns =
    ("Backlog", false, false)
    ∷ ("A fazer", true, false)
    ∷ ("Fazendo", false, false)
    ∷ ("Revisão", false, false)
    ∷ ("Concluído", false, true)
    ∷ []

-- The loop that seeds a board, each column ranked behind the one before.
unfoldable pub seed_columns : Env → ℕ → Option Rank → List (String × Bool × Bool) → Service Unit
seed_columns env board_id prev [] = pure tt
seed_columns env board_id prev ((name, is_landing, is_done) ∷ more) = do
  rank ← or_hang (rank_between prev none)
  id ← gets (new_column_id env)
  add_column (record {
    id = id;
    board_id = board_id;
    name = name;
    rank = rank;
    wip_limit = none;
    is_landing = is_landing;
    is_done = is_done;
  })
  seed_columns env board_id (some rank) more

unfoldable pub create_board : Env → User → BoardCreate → Service KanbanBoard
create_board env user body = do
  id ← gets (new_board_id env)
  b ← add_board (record {
    id = id;
    owner_id = user.id;
    name = strip body.name;
    visibility = body.visibility;
    default_agent_role = body.default_agent_role;
    auto_card_on_delegation = false;
    auto_card_on_escalation = false;
    created_at = env.now;
  })
  seed_columns env b.id none default_columns
  audit "kanban_board_created" user.email
  pure b

unfoldable pub list_boards : User → Service (List KanbanBoard)
list_boards user = gets (list_visible_boards user.id (is_admin user.role))

unfoldable pub get_board : User → ℕ → Service KanbanBoard
get_board user board_id = visible_board user board_id

-- `by_card.get(card.id, [])`
abbrev deps_of : ℕ → List (ℕ × ℕ) → List ℕ
deps_of card_id [] = []
deps_of card_id ((a, b) ∷ edges) =
    if nat_eq a card_id then b ∷ deps_of card_id edges else deps_of card_id edges

abbrev pub attach_deps : List (ℕ × ℕ) → List KanbanCard → List KanbanCard
attach_deps edges [] = []
attach_deps edges (c ∷ cards) =
    record c { depends_on = deps_of c.id edges } ∷ attach_deps edges cards

unfoldable pub board_contents :
    KanbanBoard → Service (KanbanBoard × List KanbanColumn × List KanbanCard)
board_contents b = do
  columns ← gets (list_columns b.id)
  cards ← gets (list_cards b.id)
  edges ← gets (deps_for_board b.id)
  pure (b, columns, attach_deps edges cards)

unfoldable pub get_board_full :
    User → ℕ → Service (KanbanBoard × List KanbanColumn × List KanbanCard)
get_board_full user board_id = do b ← visible_board user board_id; board_contents b

-- `x if value is None else value`
abbrev pub changed {ℓ} : {A : Type ℓ} → A → Option A → A
changed old none = old
changed old (some new) = new

abbrev pub stripped : String → Option String → String
stripped old none = old
stripped old (some new) = strip new

abbrev pub updated_board : BoardUpdate → KanbanBoard → KanbanBoard
updated_board body b = record b {
  name = stripped b.name body.name;
  visibility = changed b.visibility body.visibility;
  default_agent_role = changed b.default_agent_role body.default_agent_role;
  auto_card_on_delegation = changed b.auto_card_on_delegation body.auto_card_on_delegation;
  auto_card_on_escalation = changed b.auto_card_on_escalation body.auto_card_on_escalation;
}

unfoldable pub update_board : User → ℕ → BoardUpdate → Service KanbanBoard
update_board user board_id body = do
  b ← owned_board user board_id
  save_board (updated_board body b)
  audit "kanban_board_updated" user.email
  pure (updated_board body b)

unfoldable pub delete_board : User → ℕ → Service Unit
delete_board user board_id = do
  b ← owned_board user board_id
  delete_board_rows b
  audit "kanban_board_deleted" user.email

-- ---- columns ----

abbrev rank_of_column : Option KanbanColumn → Option Rank
rank_of_column none = none
rank_of_column (some c) = some c.rank

unfoldable pub create_column : Env → User → ℕ → ColumnCreate → Service KanbanColumn
create_column env user board_id body = do
  visible_board user board_id
  existing ← gets (list_columns board_id)
  rank ← or_hang (rank_between (rank_of_column (last existing)) none)
  id ← gets (new_column_id env)
  c ← add_column (record {
    id = id;
    board_id = board_id;
    name = strip body.name;
    rank = rank;
    wip_limit = body.wip_limit;
    is_landing = false;
    is_done = false;
  })
  audit "kanban_column_created" user.email
  pure c

-- 0 clears the limit.
abbrev pub limit_after : Option ℕ → Option ℕ → Option ℕ
limit_after old none = old
limit_after old (some n) = if nat_eq n 0 then none else some n

-- `if data.is_landing`
abbrev pub lands : Option Bool → Bool
lands (some true) = true
lands _ = false

abbrev pub updated_column : ColumnUpdate → KanbanColumn → KanbanColumn
updated_column body c = record c {
  name = stripped c.name body.name;
  wip_limit = limit_after c.wip_limit body.wip_limit;
  is_landing = if lands body.is_landing then true else c.is_landing;
  is_done = changed c.is_done body.is_done;
}

unfoldable pub update_column : User → ℕ → ℕ → ColumnUpdate → Service KanbanColumn
update_column user board_id column_id body = do
  visible_board user board_id
  c ← column_of_board board_id column_id
  when (lands body.is_landing) (clear_landing board_id)
  save_column c (updated_column body c)
  audit "kanban_column_updated" user.email
  pure (updated_column body c)

unfoldable pub delete_column : User → ℕ → ℕ → Service Unit
delete_column user board_id column_id = do
  visible_board user board_id
  c ← column_of_board board_id column_id
  count ← gets (count_cards_in_column column_id)
  raise_if (ltb 0 count) conflict
  raise_if c.is_landing conflict
  delete_column_row c
  audit "kanban_column_deleted" user.email

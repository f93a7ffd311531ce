-- ===== src/Kanban/Tables.antt =====
-- hub/app/repositories/kanban_repo.py: boards, columns, grants and members.
use ampla.Shared.{
  ℕ, String, Bool, true, false, ◌&&◌, ◌||◌, not, ◌==◌, eq_nat, eq_string, eq_int, Option, List, [],
  ◌∷◌, ◌++◌, map, select, find_row, update_rows, order_by, first, any, ltb, leb, nat_eq,
  if◌then◌else◌,
}
use ampla.Models.{
  UserId, KanbanBoard, KanbanColumn, KanbanCard, KanbanCardComment, KanbanCardDep, KanbanAgentGrant,
  KanbanBoardMember, is_team,
}
use ampla.Rank.Order.{rank_lt}
use ampla.Hub.{Db, Env}
use ampla.Hub.Exec.{Service, ok, err, unexpected}

-- ---- boards ----

abbrev pub new_board_id : Env → Db → ℕ
new_board_id env db = env.new_id (map (λ (b : KanbanBoard). b.id) db.boards)

unfoldable pub add_board : KanbanBoard → Service KanbanBoard
add_board b db = (ok b, record db { boards = db.boards ++ b ∷ [] })

abbrev pub get_board : ℕ → Db → Option KanbanBoard
get_board board_id db = find_row (λ (b : KanbanBoard). b.id == board_id) db.boards

abbrev pub is_member : ℕ → UserId → Db → Bool
is_member board_id user_id db =
    any (λ (m : KanbanBoardMember). m.board_id == board_id && m.user_id == user_id) db.members

-- ORDER BY created_at DESC, id DESC
abbrev pub newer : KanbanBoard → KanbanBoard → Bool
newer a b =
    if nat_eq a.created_at b.created_at then leb b.id a.id else ltb b.created_at a.created_at

-- The WHERE clause: own boards, team boards, and boards shared with the user; all for an admin.
abbrev pub listed : UserId → Bool → Db → KanbanBoard → Bool
listed user_id is_admin db b =
    is_admin || (b.owner_id == user_id || (is_team b.visibility || is_member b.id user_id db))

unfoldable pub list_visible_boards : UserId → Bool → Db → List KanbanBoard
list_visible_boards user_id is_admin db =
    order_by newer (select (listed user_id is_admin db) db.boards)

unfoldable pub save_board : KanbanBoard → Service Unit
save_board b db = (
  ok tt,
  record db { boards = update_rows (λ (c : KanbanBoard). c.id == b.id) (λ _. b) db.boards },
)

-- The two flags of event cards.
pub data Flag : Type 0 where
  auto_card_on_delegation auto_card_on_escalation : Flag

abbrev pub flag_of : Flag → KanbanBoard → Bool
flag_of auto_card_on_delegation b = b.auto_card_on_delegation
flag_of auto_card_on_escalation b = b.auto_card_on_escalation

abbrev older : KanbanBoard → KanbanBoard → Bool
older a b =
    if nat_eq a.created_at b.created_at then leb a.id b.id else ltb a.created_at b.created_at

unfoldable pub first_board_with_flag : UserId → Flag → Db → Option KanbanBoard
first_board_with_flag owner_id flag db = first (
    order_by older
      (select (λ (b : KanbanBoard). b.owner_id == owner_id && flag_of flag b) db.boards))

-- A card of the board.
abbrev pub on_board : ℕ → Db → ℕ → Bool
on_board board_id db card_id =
    any (λ (c : KanbanCard). c.id == card_id && c.board_id == board_id) db.cards

-- A dependency row of a card of the board, at either end.
abbrev pub dep_on_board : ℕ → Db → KanbanCardDep → Bool
dep_on_board board_id db d = on_board board_id db d.card_id || on_board board_id db d.depends_on_id

-- Children first. `kanban_card_deps` is not among them: with `PRAGMA foreign_keys=ON` (core/db.py)
-- the deletion of a card that a dependency row names is an IntegrityError, and nothing is committed.
unfoldable pub delete_board : KanbanBoard → Service Unit
delete_board b db = if any (dep_on_board b.id db) db.deps then (err unexpected, db) else (
  ok tt,
  record db {
    comments = select (λ (k : KanbanCardComment). not (on_board b.id db k.card_id)) db.comments;
    cards = select (λ (c : KanbanCard). not (c.board_id == b.id)) db.cards;
    columns = select (λ (c : KanbanColumn). not (c.board_id == b.id)) db.columns;
    grants = select (λ (g : KanbanAgentGrant). not (g.board_id == b.id)) db.grants;
    members = select (λ (m : KanbanBoardMember). not (m.board_id == b.id)) db.members;
    boards = select (λ (c : KanbanBoard). not (c.id == b.id)) db.boards;
  },
)

-- ---- columns ----

abbrev pub new_column_id : Env → Db → ℕ
new_column_id env db = env.new_id (map (λ (c : KanbanColumn). c.id) db.columns)

unfoldable pub add_column : KanbanColumn → Service KanbanColumn
add_column c db = (ok c, record db { columns = db.columns ++ c ∷ [] })

abbrev pub get_column : ℕ → Db → Option KanbanColumn
get_column column_id db = find_row (λ (c : KanbanColumn). c.id == column_id) db.columns

abbrev pub by_rank : KanbanColumn → KanbanColumn → Bool
by_rank a b = not (rank_lt b.rank a.rank)

unfoldable pub list_columns : ℕ → Db → List KanbanColumn
list_columns board_id db =
    order_by by_rank (select (λ (c : KanbanColumn). c.board_id == board_id) db.columns)

unfoldable pub landing_column : ℕ → Db → Option KanbanColumn
landing_column board_id db = first (
    order_by by_rank
      (select (λ (c : KanbanColumn). c.board_id == board_id && c.is_landing) db.columns))

unfoldable pub first_done_column : ℕ → Db → Option KanbanColumn
first_done_column board_id db = first (
    order_by by_rank
      (select (λ (c : KanbanColumn). c.board_id == board_id && c.is_done) db.columns))

-- A flush writes the attributes that were set to another value than the loaded one. Only `is_landing`
-- can differ between the loaded column and its row, after `clear_landing`.
abbrev pub flushed : Bool → Bool → Bool → Bool
flushed true true row = row
flushed false false row = row
flushed loaded set row = set

abbrev pub written_column : KanbanColumn → KanbanColumn → KanbanColumn → KanbanColumn
written_column loaded c row = record c {
  is_landing = flushed loaded.is_landing c.is_landing row.is_landing;
}

unfoldable pub save_column : KanbanColumn → KanbanColumn → Service Unit
save_column loaded c db = (
  ok tt,
  record db {
    columns = update_rows (λ (r : KanbanColumn). r.id == c.id) (written_column loaded c) db.columns;
  },
)

-- A Core UPDATE: it does not touch the columns that the session has loaded.
unfoldable pub clear_landing : ℕ → Service Unit
clear_landing board_id db = (
  ok tt,
  record db {
    columns =
        update_rows (λ (c : KanbanColumn). c.board_id == board_id)
          (λ c. record c { is_landing = false }) db.columns;
  },
)

unfoldable pub delete_column : KanbanColumn → Service Unit
delete_column c db =
    (ok tt, record db { columns = select (λ (d : KanbanColumn). not (d.id == c.id)) db.columns })

-- ---- grants ----

abbrev pub get_grant : ℕ → String → Db → Option KanbanAgentGrant
get_grant board_id slug db =
    find_row (λ (g : KanbanAgentGrant). g.board_id == board_id && g.agent_slug == slug) db.grants

abbrev pub new_grant_id : Env → Db → ℕ
new_grant_id env db = env.new_id (map (λ (g : KanbanAgentGrant). g.id) db.grants)

unfoldable pub add_grant : KanbanAgentGrant → Service KanbanAgentGrant
add_grant g db = (ok g, record db { grants = db.grants ++ g ∷ [] })

unfoldable pub save_grant : KanbanAgentGrant → Service Unit
save_grant g db = (
  ok tt,
  record db { grants = update_rows (λ (h : KanbanAgentGrant). h.id == g.id) (λ _. g) db.grants },
)

unfoldable pub delete_grant : KanbanAgentGrant → Service Unit
delete_grant g db =
    (ok tt, record db { grants = select (λ (h : KanbanAgentGrant). not (h.id == g.id)) db.grants })

-- ---- members ----

abbrev pub get_member : ℕ → UserId → Db → Option KanbanBoardMember
get_member board_id user_id db =
    find_row (λ (m : KanbanBoardMember). m.board_id == board_id && m.user_id == user_id) db.members

abbrev pub new_member_id : Env → Db → ℕ
new_member_id env db = env.new_id (map (λ (m : KanbanBoardMember). m.id) db.members)

unfoldable pub add_member_row : KanbanBoardMember → Service KanbanBoardMember
add_member_row m db = (ok m, record db { members = db.members ++ m ∷ [] })

unfoldable pub delete_member : KanbanBoardMember → Service Unit
delete_member m db = (
  ok tt,
  record db { members = select (λ (n : KanbanBoardMember). not (n.id == m.id)) db.members },
)

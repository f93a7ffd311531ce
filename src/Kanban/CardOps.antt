-- ===== src/Kanban/CardOps.antt =====
-- Cards and comments (hub/app/services/kanban_service.py).
use ampla.Shared.{
  ℕ, ◌+◌, String, Bool, false, not, ◌&&◌, ◌==◌, eq_nat, eq_string, Option, none, some, List, [],
  option_beq, if◌then◌else◌,
}
use ampla.Text.{strip}
use ampla.Rank.{rank_between}
use ampla.Models.{User, KanbanColumn, KanbanCard, KanbanCardComment, Origin, task_assigned}
use ampla.Hub.{Env}
use ampla.Hub.Exec.{
  Service, pure, gets, raise, raise_if, or_raise, or_hang, when, audit, ◌>>=◌, ◌>>◌, not_found,
  conflict, invalid_input,
}
use ampla.Kanban.Cards.{
  new_card_id, add_card, get_card_row, save_card, last_rank_in_column, delete_card_row,
  new_comment_id, add_comment_row, list_comments_of, dep_ids_for_card,
}
use ampla.Kanban.Inputs.{CardCreate, CardUpdate}
use ampla.Kanban.Boards.{changed, stripped}
use ampla.Kanban.Access.{visible_board, resolve_landing}
use ampla.Kanban.Notices.{user_ref, has_assignee, notify_assignee, notify_comment}

-- `_validate_client_origin`: a human may only name a message or a thread.
unfoldable pub validate_client_origin : Option Origin → Service (Option Origin)
validate_client_origin none = pure none
validate_client_origin (some (Origin.message n)) = pure (some (Origin.message n))
validate_client_origin (some (Origin.thread n)) = pure (some (Origin.thread n))
validate_client_origin (some _) = raise invalid_input

abbrev pub new_card :
    Env → ℕ → KanbanColumn → CardCreate → String → Option Origin → List ℕ → ℕ → KanbanCard
new_card env board_id column body created_by origin rank id = record {
  id = id;
  board_id = board_id;
  column_id = column.id;
  rank = rank;
  title = strip body.title;
  body = body.body;
  created_by = created_by;
  assignee = body.assignee;
  priority = body.priority;
  origin = origin;
  version = 1;
  depends_on = [];
  created_at = env.now;
  updated_at = env.now;
}

-- The card at the end of its column.
unfoldable pub append_card : Env → ℕ → CardCreate → String → Option Origin → Service KanbanCard
append_card env board_id body created_by origin = do
  column ← resolve_landing board_id body.column_id
  last_rank ← gets (last_rank_in_column column.id)
  rank ← or_hang (rank_between last_rank none)
  id ← gets (new_card_id env)
  add_card (new_card env board_id column body created_by origin rank id)

-- `_insert_card`
unfoldable pub insert_card :
    Env → ℕ → CardCreate → String → String → Option Origin → Service KanbanCard
insert_card env board_id body created_by audit_actor origin = do
  c ← append_card env board_id body created_by origin
  audit "kanban_card_created" audit_actor
  when (has_assignee c.assignee) (notify_assignee env c task_assigned created_by)
  pure c

unfoldable pub create_card : Env → User → ℕ → CardCreate → Service KanbanCard
create_card env user board_id body = do
  visible_board user board_id
  origin ← validate_client_origin body.origin
  insert_card env board_id body (user_ref user.id) user.email origin

unfoldable pub get_card : User → ℕ → Service KanbanCard
get_card user card_id = do
  found ← gets (get_card_row card_id)
  c ← or_raise found not_found
  visible_board user c.board_id
  deps ← gets (dep_ids_for_card c.id)
  pure (record c { depends_on = deps })

-- `expected is not None and version != expected`
abbrev pub is_stale : ℕ → Option ℕ → Bool
is_stale version none = false
is_stale version (some expected) = not (version == expected)

abbrev assignee_or : Option String → Option String → Option String
assignee_or none old = old
assignee_or (some a) old = some a

abbrev pub assignee_after : CardUpdate → Option String → Option String
assignee_after body old = if body.clear_assignee then none else assignee_or body.assignee old

abbrev names_other : Option String → Option String → Bool
names_other none old = false
names_other (some a) old = not (option_beq (some a) old)

abbrev pub newly_assigned : CardUpdate → KanbanCard → Bool
newly_assigned body c = not body.clear_assignee && names_other body.assignee c.assignee

abbrev pub updated_card : Env → CardUpdate → KanbanCard → KanbanCard
updated_card env body c = record c {
  title = stripped c.title body.title;
  body = changed c.body body.body;
  assignee = assignee_after body c.assignee;
  priority = changed c.priority body.priority;
  version = c.version + 1;
  updated_at = env.now;
}

unfoldable pub update_card : Env → User → ℕ → CardUpdate → Service KanbanCard
update_card env user card_id body = do
  c ← get_card user card_id
  raise_if (is_stale c.version body.expected_version) conflict
  save_card (updated_card env body c)
  audit "kanban_card_updated" user.email
  when (newly_assigned body c)
      (notify_assignee env (updated_card env body c) task_assigned (user_ref user.id))
  pure (updated_card env body c)

unfoldable pub delete_card : User → ℕ → Service Unit
delete_card user card_id = do
  c ← get_card user card_id
  delete_card_row c
  audit "kanban_card_deleted" user.email

-- ---- comments ----

unfoldable pub list_comments : User → ℕ → Service (List KanbanCardComment)
list_comments user card_id = do c ← get_card user card_id; gets (list_comments_of c.id)

-- `_insert_comment`
unfoldable pub insert_comment :
    Env → KanbanCard → String → String → String → Service KanbanCardComment
insert_comment env c body author audit_actor = do
  id ← gets (new_comment_id env)
  k ←
      add_comment_row
        (record { id = id; card_id = c.id; author = author; body = body; created_at = env.now })
  audit "kanban_comment_added" audit_actor
  notify_comment env c body author
  pure k

unfoldable pub add_comment : Env → User → ℕ → String → Service KanbanCardComment
add_comment env user card_id body = do
  c ← get_card user card_id
  insert_comment env c body (user_ref user.id) user.email

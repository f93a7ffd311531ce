-- ===== src/Kanban/Access.antt =====
-- Who may see and do what (hub/app/services/kanban_service.py): human visibility, board governance,
-- the roles of agents.
use ampla.Shared.{
  ℕ, String, Bool, true, false, ◌&&◌, ◌||◌, not, ◌==◌, eq_nat, eq_string, eq_int, Option, none,
  some, List, find_row, first, if◌then◌else◌, option_beq,
}
use ampla.Models.{
  User, Agent, KanbanBoard, KanbanColumn, KanbanCard, KanbanAgentGrant, AgentRole, no_role, viewer,
  contributor, editor, unknown_role, is_no_role, is_team, is_admin,
}
use ampla.Hub.{Db}
use ampla.Hub.Exec.{
  Service, pure, gets, raise_if, or_raise, ◌>>=◌, ◌>>◌, not_found, conflict, permission_denied,
}
use ampla.Inbox.Repo.{get_user}
use ampla.Kanban.Tables.{get_board, is_member, get_column, list_columns, landing_column, get_grant}
use ampla.Kanban.Cards.{get_card_row}

pub data Action : Type 0 where
  view comment create move edit delete manage_columns : Action

-- What every role but none and the unknown ones may do.
abbrev reads : Action → Bool
reads view = true
reads comment = true
reads _ = false

abbrev owner_only : Action → Bool
owner_only move = true
owner_only edit = true
owner_only _ = false

abbrev contributes : Action → Bool → Bool
contributes create owns_card = true
contributes action owns_card = reads action || owner_only action && owns_card

unfoldable pub agent_capability : AgentRole → Action → Bool → Bool
agent_capability viewer action owns_card = reads action
agent_capability contributor action owns_card = contributes action owns_card
agent_capability editor action owns_card = true
agent_capability no_role action owns_card = false
agent_capability unknown_role action owns_card = false

-- AgentRepository.get
abbrev pub get_agent : String → Db → Option Agent
get_agent slug db = find_row (λ (a : Agent). a.slug == slug) db.agents

unfoldable pub human_can_see : User → KanbanBoard → Bool
human_can_see user b = is_admin user.role || (b.owner_id == user.id || is_team b.visibility)

unfoldable pub can_see : User → KanbanBoard → Db → Bool
unfolding human_can_see
can_see user b db = human_can_see user b || is_member b.id user.id db

-- A board that the user may not see is treated as absent.
abbrev pub seen_by : User → Db → Option KanbanBoard → Option KanbanBoard
seen_by user db none = none
seen_by user db (some b) = if can_see user b db then some b else none

unfoldable pub visible_board : User → ℕ → Service KanbanBoard
visible_board user board_id = do
  found ← gets (λ db. seen_by user db (get_board board_id db))
  or_raise found not_found

-- Board governance: owner or admin.
abbrev pub governs : User → KanbanBoard → Bool
governs user b = b.owner_id == user.id || is_admin user.role

unfoldable pub owned_board : User → ℕ → Service KanbanBoard
owned_board user board_id = do
  b ← visible_board user board_id
  raise_if (not (governs user b)) permission_denied
  pure b

abbrev pub column_on : ℕ → Option KanbanColumn → Option KanbanColumn
column_on board_id none = none
column_on board_id (some c) = if c.board_id == board_id then some c else none

unfoldable pub column_of_board : ℕ → ℕ → Service KanbanColumn
column_of_board board_id column_id = do
  found ← gets (get_column column_id)
  or_raise (column_on board_id found) not_found

abbrev pub landing_or_first : Option KanbanColumn → List KanbanColumn → Option KanbanColumn
landing_or_first none columns = first columns
landing_or_first (some c) columns = some c

unfoldable pub resolve_landing : ℕ → Option ℕ → Service KanbanColumn
resolve_landing board_id none = do
  found ← gets (λ db. landing_or_first (landing_column board_id db) (list_columns board_id db))
  or_raise found conflict
resolve_landing board_id (some column_id) = column_of_board board_id column_id

-- ---- agents ----

abbrev owner_sees : KanbanBoard → Db → Option User → Bool
owner_sees b db none = false
owner_sees b db (some u) = can_see u b db

abbrev pub agent_owner_sees : KanbanBoard → Db → Option Agent → Bool
agent_owner_sees b db none = false
agent_owner_sees b db (some a) = owner_sees b db (get_user a.user_id db)

unfoldable pub default_role_applies : KanbanBoard → String → Db → Bool
unfolding can_see
default_role_applies b slug db = is_team b.visibility || agent_owner_sees b db (get_agent slug db)

abbrev pub role_or_default : Option KanbanAgentGrant → AgentRole → AgentRole
role_or_default none default = default
role_or_default (some g) default = g.role

unfoldable pub agent_role : KanbanBoard → String → Db → AgentRole
agent_role b slug db = role_or_default (get_grant b.id slug db) (
    if is_no_role b.default_agent_role
    then no_role
    else if default_role_applies b slug db
    then b.default_agent_role
    else no_role)

-- Cards that the agent created or is assigned.
unfoldable pub agent_owns : KanbanCard → String → Bool
agent_owns c slug = c.created_by == slug || option_beq c.assignee (some slug)

abbrev pub owns_card : Option KanbanCard → String → Bool
owns_card none slug = false
owns_card (some c) slug = agent_owns c slug

unfoldable pub require_agent_can : String → KanbanBoard → Action → Option KanbanCard → Service Unit
require_agent_can slug b action card = do
  role ← gets (agent_role b slug)
  raise_if (not (agent_capability role action (owns_card card slug))) permission_denied

unfoldable pub agent_board : String → ℕ → Service KanbanBoard
agent_board slug board_id = do found ← gets (get_board board_id); or_raise found not_found

unfoldable pub existing_card : ℕ → Service KanbanCard
existing_card card_id = do found ← gets (get_card_row card_id); or_raise found not_found

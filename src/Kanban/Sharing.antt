-- ===== src/Kanban/Sharing.antt =====
-- Members and grants of a board (hub/app/services/kanban_service.py), with the composition of
-- hub/app/api/deps.py, where the service has its user and agent repositories.
use Prim.Native.Nat.{Ordering}
use Prim.Native.String.{compare}
use ampla.Shared.{
  ℕ, String, Bool, true, false, not, ◌==◌, eq_nat, eq_string, eq_int, Option, none, some, List, [],
  ◌∷◌, order_by, select, nat_eq, leb, ltb, if◌then◌else◌,
}
use ampla.Models.{
  User, UserId, Agent, KanbanBoard, KanbanAgentGrant, KanbanBoardMember, AgentRole, viewer,
  contributor, editor, no_role, unknown_role,
}
use ampla.Hub.{Db, Env}
use ampla.Hub.Exec.{
  Service, pure, gets, raise_if, or_raise, audit, ◌>>=◌, ◌>>◌, not_found, permission_denied,
  invalid_input,
}
use ampla.Inbox.Repo.{get_user}
use ampla.Kanban.Tables.{
  get_grant, new_grant_id, add_grant, save_grant, delete_grant, get_member, new_member_id,
  add_member_row, delete_member,
}
use ampla.Kanban.Access.{get_agent, visible_board, owned_board, governs}

-- ---- members ----

abbrev older_member : KanbanBoardMember → KanbanBoardMember → Bool
older_member a b =
    if nat_eq a.created_at b.created_at then leb a.id b.id else ltb a.created_at b.created_at

-- BoardRepository.list_members
abbrev members_of : ℕ → Db → List KanbanBoardMember
members_of board_id db =
    order_by older_member (select (λ (m : KanbanBoardMember). m.board_id == board_id) db.members)

abbrev Members : Type 0
Members = List (KanbanBoardMember × User)

abbrev with_user : KanbanBoardMember → Option User → Members → Members
with_user m none rest = rest
with_user m (some u) rest = (m, u) ∷ rest

abbrev enriched : Db → List KanbanBoardMember → Members
enriched db [] = []
enriched db (m ∷ ms) = with_user m (get_user m.user_id db) (enriched db ms)

unfoldable pub list_members : User → ℕ → Service Members
list_members user board_id = do
  owned_board user board_id
  gets (λ db. enriched db (members_of board_id db))

abbrev insert_member :
    Env → User → ℕ → UserId → Option KanbanBoardMember → Service KanbanBoardMember
insert_member env user board_id target_user_id (some m) = pure m
insert_member env user board_id target_user_id none = do
  id ← gets (new_member_id env)
  m ←
      add_member_row
        (record { id = id; board_id = board_id; user_id = target_user_id; created_at = env.now })
  audit "kanban_member_added" user.email
  pure m

unfoldable pub add_member : Env → User → ℕ → UserId → Service (KanbanBoardMember × User)
add_member env user board_id target_user_id = do
  owned_board user board_id
  found ← gets (get_user target_user_id)
  target ← or_raise found not_found
  existing ← gets (get_member board_id target_user_id)
  m ← insert_member env user board_id target_user_id existing
  pure (m, target)

abbrev drop_member : User → Option KanbanBoardMember → Service Unit
drop_member user none = pure tt
drop_member user (some m) = do delete_member m; audit "kanban_member_removed" user.email

unfoldable pub remove_member : User → ℕ → UserId → Service Unit
remove_member user board_id target_user_id = do
  owned_board user board_id
  existing ← gets (get_member board_id target_user_id)
  drop_member user existing

-- ---- grants ----

-- `role in GRANTABLE_ROLES`
abbrev pub is_grantable : AgentRole → Bool
is_grantable viewer = true
is_grantable contributor = true
is_grantable editor = true
is_grantable no_role = false
is_grantable unknown_role = false

abbrev pub is_own_agent : User → Option Agent → Bool
is_own_agent user none = false
is_own_agent user (some a) = a.user_id == user.id

-- `_authorize_grant`
unfoldable pub authorize_grant : User → ℕ → String → Service KanbanBoard
authorize_grant user board_id agent_slug = do
  b ← visible_board user board_id
  agent ← gets (get_agent agent_slug)
  raise_if (if governs user b then false else not (is_own_agent user agent)) permission_denied
  pure b

abbrev by_slug : KanbanAgentGrant → KanbanAgentGrant → Bool
by_slug a b = elim (compare a.agent_slug b.agent_slug) [ Ordering.gt ↦ false | _ ↦ true ]

-- BoardRepository.list_grants
abbrev grants_of : ℕ → Db → List KanbanAgentGrant
grants_of board_id db =
    order_by by_slug (select (λ (g : KanbanAgentGrant). g.board_id == board_id) db.grants)

unfoldable pub list_grants : User → ℕ → Service (List KanbanAgentGrant)
list_grants user board_id = do visible_board user board_id; gets (grants_of board_id)

abbrev pub put_grant :
    Env → ℕ → String → AgentRole → Option KanbanAgentGrant → Service KanbanAgentGrant
put_grant env board_id agent_slug role none = do
  id ← gets (new_grant_id env)
  add_grant (record { id = id; board_id = board_id; agent_slug = agent_slug; role = role })
put_grant env board_id agent_slug role (some g) = do
  save_grant (record g { role = role })
  pure (record g { role = role })

unfoldable pub set_grant : Env → User → ℕ → String → AgentRole → Service KanbanAgentGrant
set_grant env user board_id agent_slug role = do
  authorize_grant user board_id agent_slug
  raise_if (not (is_grantable role)) invalid_input
  agent ← gets (get_agent agent_slug)
  or_raise agent not_found
  existing ← gets (get_grant board_id agent_slug)
  g ← put_grant env board_id agent_slug role existing
  audit "kanban_grant_set" user.email
  pure g

abbrev drop_grant : User → Option KanbanAgentGrant → Service Unit
drop_grant user none = pure tt
drop_grant user (some g) = do delete_grant g; audit "kanban_grant_removed" user.email

unfoldable pub remove_grant : User → ℕ → String → Service Unit
remove_grant user board_id agent_slug = do
  authorize_grant user board_id agent_slug
  existing ← gets (get_grant board_id agent_slug)
  drop_grant user existing

-- ===== src/Models/Kanban.antt =====
-- hub/app/models/kanban.py
use ampla.Shared.{ℕ, String, Bool, true, false, Option, List}
use ampla.Rank.{Rank}
use ampla.Models.Users.{UserId, Time}

pub data Visibility : Type 0 where
  team private : Visibility

abbrev pub is_team : Visibility → Bool
is_team team = true
is_team private = false

-- The role of an agent on a board: `none`, the three that can be granted, or any other text.
pub data AgentRole : Type 0 where
  no_role viewer contributor editor unknown_role : AgentRole

-- `role == "none"`
abbrev pub is_no_role : AgentRole → Bool
is_no_role no_role = true
is_no_role _ = false

pub record KanbanBoard : Type 0 where
  pub id : ℕ
  pub owner_id : UserId
  pub name : String
  pub visibility : Visibility
  pub default_agent_role : AgentRole
  pub auto_card_on_delegation : Bool
  pub auto_card_on_escalation : Bool
  pub created_at : Time

pub record KanbanColumn : Type 0 where
  pub id : ℕ
  pub board_id : ℕ
  pub name : String
  pub rank : Rank
  pub wip_limit : Option ℕ
  pub is_landing : Bool
  pub is_done : Bool

-- The `origin` of a card: {kind, id} of a message, thread or delegation, or {kind: "escalation",
-- from, agent}. `other` is any other dictionary.
pub data Origin : Type 0 where
  message thread delegation : ℕ → Origin
  escalation : (from agent : String) → Origin
  other : Origin

-- `depends_on` is filled in by the service and is no column.
pub record KanbanCard : Type 0 where
  pub id : ℕ
  pub board_id : ℕ
  pub column_id : ℕ
  pub rank : Rank
  pub title : String
  pub body : String
  pub created_by : String
  pub assignee : Option String
  pub priority : String
  pub origin : Option Origin
  pub version : ℕ
  pub depends_on : List ℕ
  pub created_at : Time
  pub updated_at : Time

pub record KanbanCardComment : Type 0 where
  pub id : ℕ
  pub card_id : ℕ
  pub author : String
  pub body : String
  pub created_at : Time

pub record KanbanAgentGrant : Type 0 where
  pub id : ℕ
  pub board_id : ℕ
  pub agent_slug : String
  pub role : AgentRole

pub record KanbanBoardMember : Type 0 where
  pub id : ℕ
  pub board_id : ℕ
  pub user_id : UserId
  pub created_at : Time

pub record KanbanCardDep : Type 0 where
  pub id : ℕ
  pub card_id : ℕ
  pub depends_on_id : ℕ

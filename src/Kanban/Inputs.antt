-- ===== src/Kanban/Inputs.antt =====
-- The request bodies of hub/app/schemas/kanban.py, as validated there.
use ampla.Shared.{ℕ, String, Bool, Option}
use ampla.Models.{Visibility, AgentRole, Origin}

pub record BoardCreate : Type 0 where
  pub name : String
  pub visibility : Visibility
  pub default_agent_role : AgentRole

pub record BoardUpdate : Type 0 where
  pub name : Option String
  pub visibility : Option Visibility
  pub default_agent_role : Option AgentRole
  pub auto_card_on_delegation : Option Bool
  pub auto_card_on_escalation : Option Bool

pub record ColumnCreate : Type 0 where
  pub name : String
  pub wip_limit : Option ℕ

pub record ColumnUpdate : Type 0 where
  pub name : Option String
  pub wip_limit : Option ℕ
  pub is_landing : Option Bool
  pub is_done : Option Bool

pub record CardCreate : Type 0 where
  pub title : String
  pub body : String
  pub column_id : Option ℕ
  pub assignee : Option String
  pub priority : String
  pub origin : Option Origin

pub record CardUpdate : Type 0 where
  pub title : Option String
  pub body : Option String
  pub assignee : Option String
  pub clear_assignee : Bool
  pub priority : Option String
  pub expected_version : Option ℕ

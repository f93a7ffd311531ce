-- ===== src/Hub.antt =====
-- The state that the services share, and what a service call is.
-- A session's database is the record of its tables. A service method takes the state and returns its
-- result and the state it leaves: what it wrote before an exception stays written, since each
-- repository write commits. The clock is read once for a call.
pub mod Exec
use ampla.Shared.{ℕ, Bool, Option, List}
use ampla.Models.{
  User, Agent, AuditLog, KanbanBoard, KanbanColumn, KanbanCard, KanbanCardComment, KanbanAgentGrant,
  KanbanBoardMember, KanbanCardDep, Notification, NotificationSubscription, Message, Delegation,
  Approval, Time, Invite, PasswordReset, UserAvatar, AgentKey, Group, GroupMember, GuardrailPreset,
  AutorespondRun, AgentSchedule,
}

pub record Db : Type 0 where
  pub users : List User
  pub agents : List Agent
  pub boards : List KanbanBoard
  pub columns : List KanbanColumn
  pub cards : List KanbanCard
  pub comments : List KanbanCardComment
  pub grants : List KanbanAgentGrant
  pub members : List KanbanBoardMember
  pub deps : List KanbanCardDep
  pub notifications : List Notification
  pub subscriptions : List NotificationSubscription
  pub messages : List Message
  pub delegations : List Delegation
  pub approvals : List Approval
  pub invites : List Invite
  pub resets : List PasswordReset
  pub avatars : List UserAvatar
  pub keys : List AgentKey
  pub groups : List Group
  pub group_members : List GroupMember
  pub presets : List GuardrailPreset
  pub runs : List AutorespondRun
  pub schedules : List AgentSchedule
  -- the flag of the one row of hub_state, once it is there
  pub auto_responder_enabled : Option Bool
  pub audit : List AuditLog
  -- what went to the panel through the publisher, newest last
  pub published : List Notification

-- What the hub takes from outside: the clock, the database's choice of a primary key for a new row
-- (given the keys in use), the settings of hub/app/core/config.py, and how the composition root
-- (hub/app/api/deps.py) wired the services.
pub record Env : Type 0 where
  pub now : Time
  pub new_id : List ℕ → ℕ
  pub notification_max_new_per_hour : ℕ
  pub message_max_body_bytes : ℕ
  pub pending_ttl_days : ℕ
  -- NotificationService has a publisher
  pub has_publisher : Bool
  -- KanbanService has a NotificationService
  pub kanban_notifies : Bool
  -- A row that a rollback has expired can be read; an AsyncSession raises there.
  pub reads_expired : Bool

-- timedelta(seconds=1), in microseconds
abbrev pub second : ℕ
second = 1_000_000

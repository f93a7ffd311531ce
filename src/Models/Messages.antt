-- ===== src/Models/Messages.antt =====
-- hub/app/models/message.py, delegation.py, approval.py
use ampla.Shared.{ℕ, String, Option}
use ampla.Models.Users.{UserId, Time}

-- TYPE_PATTERN (hub/app/schemas/message.py)
pub data MessageType : Type 0 where
  request response notification task alert status ack : MessageType

pub record Message : Type 0 where
  pub id : ℕ
  pub from_agent : String
  pub to_agent : String
  pub body : String
  pub type : MessageType
  pub priority : String
  pub group_slug : Option String
  pub thread_id : Option ℕ
  pub in_reply_to : Option ℕ
  pub created_at : Time
  pub delivered_at : Option Time
  pub expires_at : Option Time

pub data DelegationStatus : Type 0 where
  open_ completed declined : DelegationStatus

pub record Delegation : Type 0 where
  pub id : ℕ
  pub from_agent : String
  pub to_agent : String
  pub task : String
  pub root_message_id : Option ℕ
  pub result_message_id : Option ℕ
  pub status : DelegationStatus
  pub created_at : Time
  pub updated_at : Time

pub data ApprovalStatus : Type 0 where
  pending approved edited rejected : ApprovalStatus

pub record Approval : Type 0 where
  pub id : ℕ
  pub agent_slug : String
  pub to_agent : String
  pub draft_body : String
  pub trigger_message_id : Option ℕ
  pub status : ApprovalStatus
  pub decided_by : Option UserId
  pub decided_at : Option Time
  pub created_at : Time

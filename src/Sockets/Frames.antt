-- ===== src/Sockets/Frames.antt =====
-- The frames of the socket (hub/app/schemas/ws.py). A frame of a client is what the adapter makes of
-- a text that it accepts. Of the frames of the hub these are the ones that the routes send; the details
-- of errors are left out.
use ampla.Shared.{ℕ, String, Bool, Option, List}
use ampla.Models.{Agent, Group, Message, MessageType, KanbanCard, KanbanCardComment}
use ampla.Kanban.Inputs.{CardCreate}
use ampla.Autorespond.{AutorespondRecord}

pub data Presence : Type 0 where
  online offline : Presence

pub data Activity : Type 0 where
  responding idle : Activity

-- `op` with the card or the comment
pub data Change : Type 0 where
  card_created card_moved : KanbanCard → Change
  comment_added : KanbanCardComment → Change

pub data ServerFrame : Type 0 where
  -- the settings of an agent are a projection of its row
  hello_ack :
      Option String
      → List String
      → Option Agent
      → List Message
      → List (Group × List String)
      → Bool
      → ServerFrame
  message_delivery : Message → ServerFrame
  delivered : ℕ → String → ServerFrame
  presence : String → Presence → ServerFrame
  agent_activity : String → Activity → ServerFrame
  broadcast_result : String → List String → List String → List String → ServerFrame
  error_frame : String → ServerFrame
  ping : ServerFrame
  kanban_delta : ℕ → Change → ServerFrame
  -- the settings of this agent
  settings_update : Agent → ServerFrame
  kill_switch : Bool → ServerFrame

pub record SendMessageFrame : Type 0 where
  pub to : String
  pub body : String
  pub msg_type : MessageType
  pub priority : String
  pub in_reply_to : Option ℕ

-- CardMove (hub/app/schemas/kanban.py)
pub record CardMove : Type 0 where
  pub to_column_id : ℕ
  pub before_id : Option ℕ
  pub after_id : Option ℕ
  pub expected_version : ℕ

-- `op` with the payload, None where it does not fit the operation.
pub data KanbanAction : Type 0 where
  create_card : Option CardCreate → KanbanAction
  move_card : Option (ℕ × CardMove) → KanbanAction
  comment : Option (ℕ × String) → KanbanAction

pub data ClientFrame : Type 0 where
  hello pong : ClientFrame
  send_message : SendMessageFrame → ClientFrame
  ack : ℕ → ClientFrame
  activity : Activity → ClientFrame
  autorespond_report : AutorespondRecord → ClientFrame
  -- trigger_message_id, to, draft_body
  approval_request : Option ℕ → String → String → ClientFrame
  -- to, task, context
  delegate : String → String → String → ClientFrame
  kanban_action : ℕ → KanbanAction → ClientFrame
  -- schedule_id, status
  scheduled_task_report : ℕ → String → ClientFrame

-- ===== src/Models/Inbox.antt =====
-- hub/app/models/notification.py and the vocabularies of hub/app/schemas/notification.py
use ampla.Shared.{ℕ, String, Bool, true, false, Option}
use ampla.Models.Users.{UserId, Time}

-- REASONS
pub data Reason : Type 0 where
  mention direct_message task_assigned approval_requested autorespond_completed : Reason
  autorespond_blocked broadcast team_mention participating subscribed state_change : Reason
  security_alert escalation system : Reason

-- STATUSES
pub data Status : Type 0 where
  inbox saved done : Status

abbrev pub status_eq : Status → Status → Bool
status_eq inbox inbox = true
status_eq saved saved = true
status_eq done done = true
status_eq _ _ = false

pub record Notification : Type 0 where
  pub id : ℕ
  pub user_id : UserId
  pub subject_type : String
  pub subject_key : String
  pub agent_slug : Option String
  pub reason : Reason
  pub title : String
  pub link : String
  pub actor : String
  pub unread : Bool
  pub status : Status
  pub created_at : Time
  pub updated_at : Time
  pub last_read_at : Option Time

-- SUBSCRIPTION_STATES, with any other text as `unknown`
pub data SubscriptionState : Type 0 where
  following ignored unknown : SubscriptionState

pub record NotificationSubscription : Type 0 where
  pub id : ℕ
  pub user_id : UserId
  pub subject_key : String
  pub state : SubscriptionState
  pub reason : Option Reason
  pub created_at : Time

-- ===== src/Models/Users.antt =====
-- hub/app/models/user.py, agent.py, audit.py
use ampla.Shared.{ℕ, ℤ, String, Bool, true, false, Option, List}

abbrev pub UserId : Type 0
UserId = ℤ

abbrev pub Time : Type 0
Time = ℕ

pub data Role : Type 0 where
  admin member : Role

-- `role == "admin"`
abbrev pub is_admin : Role → Bool
is_admin admin = true
is_admin member = false

-- notify_level, with any other text as `unknown`
pub data NotifyLevel : Type 0 where
  all mentions_and_direct mute unknown : NotifyLevel

pub record User : Type 0 where
  pub id : UserId
  pub email : String
  pub name : String
  pub password_hash : String
  pub role : Role
  pub notify_level : NotifyLevel
  pub failed_logins : ℕ
  pub locked_until : Option Time

-- An amount of dollars, in a unit that divides the amounts in use.
abbrev pub Cost : Type 0
Cost = ℕ

-- A recurring window of availability (hub/app/schemas/agent.py).
pub record ScheduleWindow : Type 0 where
  pub days : List ℕ
  pub start : String
  pub end : String

pub record AutoSchedule : Type 0 where
  pub tz : String
  pub windows : List ScheduleWindow

-- `mode`
pub data Mode : Type 0 where
  inbox_only auto : Mode

pub record Agent : Type 0 where
  pub slug : String
  pub user_id : UserId
  pub display_name : String
  pub created_at : Time
  pub mode : Mode
  -- None = everyone
  pub allowed_senders : Option (List String)
  pub max_auto_per_hour : ℕ
  pub auto_timeout_secs : ℕ
  pub instructions : String
  pub allow_write : Bool
  pub block_hidden_files : Bool
  pub block_sensitive_paths : Bool
  pub confine_to_dir : Bool
  pub denied_paths : List String
  pub trusted_senders : List String
  pub auto_paused : Bool
  pub max_auto_tokens_per_day : Option ℕ
  pub max_auto_cost_usd_per_day : Option Cost
  pub require_approval : Bool
  pub auto_schedule : Option AutoSchedule
  pub escalate_on : List String

-- An entry of the audit log; its `detail` is left out.
pub record AuditLog : Type 0 where
  pub event : String
  pub actor : String

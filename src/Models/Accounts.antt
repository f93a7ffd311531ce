-- ===== src/Models/Accounts.antt =====
-- hub/app/models/user.py (all but the user itself), agent.py (the keys), group.py,
-- guardrail_preset.py
use ampla.Shared.{ℕ, String, Bool, Option, List}
use ampla.Models.Users.{UserId, Time, Mode, Cost}

pub record Invite : Type 0 where
  pub id : ℕ
  pub code : String
  pub created_by : UserId
  pub created_at : Time
  pub expires_at : Time
  pub used_by : Option UserId
  pub used_at : Option Time

pub record PasswordReset : Type 0 where
  pub id : ℕ
  pub user_id : UserId
  pub token_hash : String
  pub expires_at : Time
  pub used_at : Option Time
  pub created_at : Time

-- The bytes of an image.
abbrev pub Bytes : Type 0
Bytes = List ℕ

pub record UserAvatar : Type 0 where
  pub user_id : UserId
  pub mime : String
  pub content : Bytes
  pub updated_at : Time

pub record AgentKey : Type 0 where
  pub id : ℕ
  pub agent_slug : String
  pub key_hash : String
  pub label : String
  pub created_at : Time
  pub revoked_at : Option Time

pub record Group : Type 0 where
  pub slug : String
  pub display_name : String
  pub created_by : UserId
  pub created_at : Time

pub record GroupMember : Type 0 where
  pub group_slug : String
  pub agent_slug : String

-- hub/app/schemas/preset.py
pub record PresetSettings : Type 0 where
  pub mode : Mode
  pub max_auto_per_hour : ℕ
  pub auto_timeout_secs : ℕ
  pub allow_write : Bool
  pub block_hidden_files : Bool
  pub block_sensitive_paths : Bool
  pub confine_to_dir : Bool
  pub denied_paths : List String
  pub trusted_senders : List String
  pub require_approval : Bool
  pub auto_paused : Bool
  pub max_auto_tokens_per_day : Option ℕ
  pub max_auto_cost_usd_per_day : Option Cost

pub record GuardrailPreset : Type 0 where
  pub id : ℕ
  -- None: a built-in preset
  pub owner_id : Option UserId
  pub name : String
  pub settings : PresetSettings
  pub created_at : Time

-- ===== src/Agents/Settings.antt =====
-- The settings of an agent (hub/app/services/agent_service.py, `update_settings`).
use ampla.Shared.{ℕ, zero, suc, String, Bool, true, false, Option, none, some, List, if◌then◌else◌}
use ampla.Models.{Agent, Mode, AutoSchedule, Cost}
use ampla.Agents.Slugs.{all_slugs}

-- AgentSettingsUpdate (hub/app/schemas/agent.py): a field that is absent changes nothing.
pub record AgentSettingsUpdate : Type 0 where
  pub mode : Option Mode
  pub allowed_senders : Option (List String)
  pub clear_allowed_senders : Bool
  pub max_auto_per_hour : Option ℕ
  pub auto_timeout_secs : Option ℕ
  pub instructions : Option String
  pub allow_write : Option Bool
  pub block_hidden_files : Option Bool
  pub block_sensitive_paths : Option Bool
  pub confine_to_dir : Option Bool
  pub denied_paths : Option (List String)
  pub trusted_senders : Option (List String)
  pub auto_paused : Option Bool
  pub max_auto_tokens_per_day : Option ℕ
  pub max_auto_cost_usd_per_day : Option Cost
  pub require_approval : Option Bool
  pub auto_schedule : Option AutoSchedule
  pub clear_auto_schedule : Bool
  pub escalate_on : Option (List String)

abbrev keep {ℓ} : {A : Type ℓ} → Option A → A → A
keep none old = old
keep (some new) old = new

-- A value of the patch, with the flag that clears it.
abbrev pub cleared_or {ℓ} : {A : Type ℓ} → Bool → Option A → Option A → Option A
cleared_or true new old = none
cleared_or false none old = old
cleared_or false (some new) old = some new

-- `value or None`
abbrev or_none : ℕ → Option ℕ
or_none zero = none
or_none (suc n) = some (suc n)

abbrev cap : Option ℕ → Option ℕ → Option ℕ
cap none old = old
cap (some n) old = or_none n

abbrev pub present_slugs : Option (List String) → Bool
present_slugs none = true
present_slugs (some ss) = all_slugs ss

-- The allowlist is checked where it is not cleared.
abbrev pub valid_senders : AgentSettingsUpdate → Bool
valid_senders patch =
    if patch.clear_allowed_senders then true else present_slugs patch.allowed_senders

unfoldable pub patched : AgentSettingsUpdate → Agent → Agent
patched patch a = record a {
  mode = keep patch.mode a.mode;
  allowed_senders = cleared_or patch.clear_allowed_senders patch.allowed_senders a.allowed_senders;
  max_auto_per_hour = keep patch.max_auto_per_hour a.max_auto_per_hour;
  auto_timeout_secs = keep patch.auto_timeout_secs a.auto_timeout_secs;
  instructions = keep patch.instructions a.instructions;
  allow_write = keep patch.allow_write a.allow_write;
  block_hidden_files = keep patch.block_hidden_files a.block_hidden_files;
  block_sensitive_paths = keep patch.block_sensitive_paths a.block_sensitive_paths;
  confine_to_dir = keep patch.confine_to_dir a.confine_to_dir;
  denied_paths = keep patch.denied_paths a.denied_paths;
  trusted_senders = keep patch.trusted_senders a.trusted_senders;
  auto_paused = keep patch.auto_paused a.auto_paused;
  max_auto_tokens_per_day = cap patch.max_auto_tokens_per_day a.max_auto_tokens_per_day;
  max_auto_cost_usd_per_day = cap patch.max_auto_cost_usd_per_day a.max_auto_cost_usd_per_day;
  require_approval = keep patch.require_approval a.require_approval;
  auto_schedule = cleared_or patch.clear_auto_schedule patch.auto_schedule a.auto_schedule;
  escalate_on = keep patch.escalate_on a.escalate_on;
}

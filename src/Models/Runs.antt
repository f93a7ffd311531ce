-- ===== src/Models/Runs.antt =====
-- hub/app/models/autorespond_run.py and schedule.py
use ampla.Shared.{ℕ, String, Bool, Option}
use ampla.Models.Users.{UserId, Time, Cost}

-- `result`
pub data RunResult : Type 0 where
  replied blocked failed skipped : RunResult

-- The snapshot of the guardrails is left out.
pub record AutorespondRun : Type 0 where
  pub id : ℕ
  pub agent_slug : String
  pub trigger_message_id : Option ℕ
  pub from_sender : String
  pub result : RunResult
  pub reason : Option String
  pub reply_preview : String
  pub tools_allowed : String
  pub tools_disallowed : String
  pub duration_ms : ℕ
  pub timed_out : Bool
  pub input_tokens : Option ℕ
  pub output_tokens : Option ℕ
  pub cost_usd : Option Cost
  pub created_at : Time

-- `kind`, which the request bodies restrict (hub/app/schemas/schedule.py)
pub data Kind : Type 0 where
  cron interval once : Kind

pub record AgentSchedule : Type 0 where
  pub id : ℕ
  pub owner_id : UserId
  pub agent_slug : String
  pub name : String
  pub kind : Kind
  pub spec : String
  pub prompt : String
  pub tools : String
  pub enabled : Bool
  pub next_run_at : Option Time
  pub last_run_at : Option Time
  pub last_status : Option String
  pub created_by : String
  pub created_at : Time
  pub updated_at : Time

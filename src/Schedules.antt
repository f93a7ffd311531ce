-- ===== src/Schedules.antt =====
-- Scheduled agent tasks (hub/app/services/scheduler.py, schedule_service.py, scheduler_engine.py and
-- repositories/schedule_repo.py).
pub mod Calendar
pub mod Outcomes
pub mod Cron
pub mod Times
pub mod Later
pub mod Repo
pub mod Service
pub mod KillSwitch
pub mod Engine
pub mod Loop
pub mod Renewed
pub mod Tasks
pub mod Ticks

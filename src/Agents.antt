-- ===== src/Agents.antt =====
-- Agents, their keys and their groups (hub/app/services/agent_service.py and group_service.py).
pub mod Slugs
pub mod Repo
pub mod Settings
pub mod Service
pub mod Groups
pub mod Names
pub mod Namespace
pub mod Calls
pub mod Broadcast
pub mod Keys

-- ===== src/Kanban.antt =====
-- The kanban boards (hub/app/services/kanban_service.py, hub/app/repositories/kanban_repo.py).
pub mod Tables
pub mod Cards
pub mod Inputs
pub mod Access
pub mod Boards
pub mod Notices
pub mod CardOps
pub mod Move
pub mod Deps
pub mod Sharing
pub mod Agents
pub mod Events
pub mod Graph
pub mod Cycles
pub mod Reads
pub mod Acyclic
pub mod Visibility
pub mod Placement
pub mod Ranked
pub mod Moves
pub mod Present
pub mod Attempts
pub mod Moved
pub mod Appends
pub mod EventCards
pub mod Limits
pub mod Deletion

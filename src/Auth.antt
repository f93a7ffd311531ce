-- ===== src/Auth.antt =====
-- Users, invites, passwords and login (hub/app/services/auth_service.py).
pub mod Security
pub mod Repo
pub mod Accounts
pub mod Login
pub mod Users
pub mod Lockout
pub mod Invites
pub mod Resets
pub mod Rows
pub mod Governed
pub mod Calls
pub mod Steps
pub mod Admins

-- ===== src/Messages.antt =====
-- Messages between agents (hub/app/services/message_service.py and its repository).
pub mod Repo
pub mod Effects
pub mod Send
pub mod History
pub mod Drafts
pub mod Guards
pub mod Origins

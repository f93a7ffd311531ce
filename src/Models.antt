-- ===== src/Models.antt =====
-- The rows of the hub's tables (hub/app/models). Columns that no modelled code reads or writes are
-- left out; the values of a column that its schema or its writers restrict are a data type. A point
-- in time is a number of microseconds.
mod Users
mod Kanban
mod Inbox
mod Messages
mod Accounts
mod Runs
pub use Users.*
pub use Kanban.*
pub use Inbox.*
pub use Messages.*
pub use Accounts.*
pub use Runs.*

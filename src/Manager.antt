-- ===== src/Manager.antt =====
-- manager/backend: scopes and their tokens, and what a caller may do.
pub mod Scopes
pub mod Claims
pub mod Access
pub mod Gate
pub mod Machines
pub mod CallLimit
pub mod Sessions
mod Tests

-- ===== src/Auth.antt =====
-- auth/service.py: accounts, invites, sessions and their tokens, on tables. A call that raises before its
-- commit leaves the tables as they were.
pub mod Rows
pub mod Credentials
pub mod Sessions
pub mod Transactions
pub mod Accounts
pub mod Passwords
pub mod Invites
pub mod Login
pub mod Lineage
mod Calls
pub mod Changes
pub mod Replay
pub mod Access
pub mod Failures
pub mod Resets
pub mod Acceptance
pub mod Rotation
mod Tests

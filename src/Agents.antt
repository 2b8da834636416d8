-- ===== src/Agents.antt =====
-- agents/: one analyst run, from the question to the reviewed answer.
pub mod State
pub mod Action
pub mod Supervisor
pub mod Specialists
pub mod Graph
mod Tests

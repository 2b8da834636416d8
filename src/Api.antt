-- ===== src/Api.antt =====
-- api/routes/runs.py: the routes that start, read and follow runs.
pub mod Site
pub mod Cursor
pub mod Runs
pub mod Stream
pub mod Creation
pub mod Resume
mod Tests

-- ===== src/Queue.antt =====
-- services/queue.py: the jobs, and the two queues that hold them.
pub mod Jobs
pub mod Redis
pub mod Durable
pub mod InMemory
mod Tests

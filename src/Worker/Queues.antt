-- ===== src/Worker/Queues.antt =====
-- The in-memory queue as the worker's `JobQueue`.
use multi_agent_ai_analyst.Prelude.{ℕ, ok}
use multi_agent_ai_analyst.Queue.InMemory
use multi_agent_ai_analyst.Queue.InMemory.{Memory}
use multi_agent_ai_analyst.Worker.Environment.{JobQueue}

abbrev pub memory_queue : (max_attempts : ℕ) → JobQueue
memory_queue max_attempts = record {
  State = Memory;
  enqueue = λ id type payload q. (ok tt, (InMemory.enqueue id type payload q).1);
  claim = λ q. let (job, q') = InMemory.claim q in (ok job, q');
  ack = λ job q. (ok tt, InMemory.ack job q);
  retry = λ job q. let (again, q') = InMemory.retry max_attempts job q in (ok again, q');
  recover_expired = λ q. (ok tt, (InMemory.recover_expired q).1);
}

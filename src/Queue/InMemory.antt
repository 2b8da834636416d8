-- ===== src/Queue/InMemory.antt =====
-- `InMemoryJobQueue`, the process-local queue. A wait that the timeout ends finds the queue as it is.
use multi_agent_ai_analyst.Prelude.{
  ℕ, Bool, true, false, List, [], ◌∷◌, ◌++◌, Option, none, some, leb, if◌then◌else◌,
}
use multi_agent_ai_analyst.Prelude.Text.{Text}
use multi_agent_ai_analyst.Queue.Jobs.{JobType, Job, new_job, attempted}

pub record Memory : Type 0 where
  pub pending : List Job
  pub dead : List Job

-- `id` is the fresh `uuid4()`.
unfoldable pub enqueue : ℕ → JobType → List (Text × Text) → Memory → ℕ × Memory
unfolding new_job
enqueue id type payload q = (id, record q { pending = q.pending ++ new_job id type payload ∷ [] })

unfoldable pub pop : List Job → Memory → Option Job × Memory
pop [] q = (none, q)
pop (job ∷ rest) q = (some job, record q { pending = rest })

unfoldable pub claim : Memory → Option Job × Memory
unfolding pop
claim q = pop q.pending q

unfoldable pub ack : Job → Memory → Memory
ack job q = q

unfoldable pub retry : (max_attempts : ℕ) → Job → Memory → Bool × Memory
unfolding attempted
retry max_attempts job q =
    if leb max_attempts (attempted job).attempts
    then (false, record q { dead = q.dead ++ attempted job ∷ [] })
    else (true, record q { pending = q.pending ++ attempted job ∷ [] })

unfoldable pub recover_expired : Memory → ℕ × Memory
recover_expired q = (0, q)

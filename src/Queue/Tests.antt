-- ===== src/Queue/Tests.antt =====
-- The queues on concrete jobs.
use multi_agent_ai_analyst.Prelude.{
  ◌==◌, if◌then◌else◌, ◌≡◌, refl, List, [], ◌∷◌, none, some, arith,
}
use multi_agent_ai_analyst.Queue.Jobs.{execute_run, Job, new_job, attempted}
use multi_agent_ai_analyst.Queue.InMemory
use multi_agent_ai_analyst.Queue.InMemory.{Memory}
use multi_agent_ai_analyst.Queue.Redis.{
  Keys, dumped, plain_redis, elem, is_member, set_member, remove_member, members_upto,
}
use multi_agent_ai_analyst.Queue.Durable.{
  Limits, enqueue, claim, claim_pop, ack, retry, recover_expired, recover_all, recover_one, load,
}
use multi_agent_ai_analyst.Queue.Durable.Tracking.{
  Tracked, call, calls, Call, enqueue_call, claim_call, recover_call, calls-Tracked,
}
use multi_agent_ai_analyst.Queue.Durable.Crash.{IsLost, claim_crash_loses}
use multi_agent_ai_analyst.Queue.Durable.Refinement.{Implements, methods_refine}

program : Unit {0}
unfolding enqueue claim claim_pop ack retry recover_expired recover_all recover_one load call calls
    new_job attempted elem is_member set_member remove_member members_upto InMemory.enqueue
    InMemory.claim InMemory.ack InMemory.retry
program = tt

abbrev limits : Limits
limits = record { max_attempts = 3; visibility = 900 }

abbrev empty : Keys
empty = record { jobs = λ i. none; pending = []; inflight = []; dead = [] }

abbrev first_job : Job
first_job = record { id = 7; type = execute_run; payload = []; attempts = 0 }

abbrev one_pending : Keys
one_pending = record empty {
  jobs = λ i. if 7 == i then some (dumped first_job) else none;
  pending = 7 ∷ [];
}

empty-Tracked : Tracked limits empty
empty-Tracked = record { named = λ i job e. cc; held = λ i e. cc }

abbrev session : List Call
session = enqueue_call 7 execute_run [] ∷ claim_call 10 ∷ recover_call 2000 ∷ claim_call 2001 ∷ []

-- A job whose lease ran out is pending again with one attempt more, and its next claim leases it.
lease_again :
    let k = calls plain_redis limits session empty in
    (k.pending ≡ [])
    × (k.inflight ≡ (7, 2901) ∷ [])
    × (k.jobs 7 ≡ some (dumped (record first_job { attempts = 1 })))
unfolding program
lease_again = (refl, refl, refl)

calls-Tracked_example : Tracked limits (calls plain_redis limits session empty)
calls-Tracked_example = calls-Tracked plain_redis limits (omega arith) session empty empty-Tracked

claim_crash_loses_example :
    IsLost 7 first_job
      (recover_expired plain_redis limits 5000 (claim_pop plain_redis limits one_pending).1).1
unfolding elem is_member
claim_crash_loses_example =
    claim_crash_loses plain_redis limits one_pending 7 [] first_job 5000 refl refl refl refl
      (λ i j e. ground arith)

abbrev mirror : Memory
mirror = record { pending = first_job ∷ []; dead = [] }

agree : Implements one_pending mirror
unfolding elem
agree = record { pending = (refl, refl, refl, tt); dead = refl }

methods_refine_example :
    Implements
      (enqueue plain_redis limits 8 execute_run [] one_pending).1
      (InMemory.enqueue 8 execute_run [] mirror).1
    × ((claim plain_redis limits 10 one_pending).0 ≡ (InMemory.claim mirror).0)
    × Implements (claim plain_redis limits 10 one_pending).1 (InMemory.claim mirror).1
    × Implements
        (ack plain_redis limits (record first_job { id = 9 }) one_pending)
        (InMemory.ack (record first_job { id = 9 }) mirror)
    × ((retry plain_redis limits (record first_job { id = 9 }) one_pending).0
        ≡ (InMemory.retry 3 (record first_job { id = 9 }) mirror).0)
    × Implements
        (retry plain_redis limits (record first_job { id = 9 }) one_pending).1
        (InMemory.retry 3 (record first_job { id = 9 }) mirror).1
unfolding elem
methods_refine_example =
    methods_refine limits plain_redis one_pending mirror agree 10 8 execute_run []
      (record first_job { id = 9 }) refl refl

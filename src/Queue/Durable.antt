-- ===== src/Queue/Durable.antt =====
-- `RedisJobQueue`: each method is the sequence of commands that it sends.
pub mod Independence
pub mod Tracking
pub mod Refinement
pub mod Crash
use multi_agent_ai_analyst.Prelude.{
  ℕ, ◌+◌, Bool, true, false, List, [], ◌∷◌, ◌++◌, Option, none, some, leb, if◌then◌else◌,
}
use multi_agent_ai_analyst.Prelude.Text.{Text}
use multi_agent_ai_analyst.Queue.Jobs.{JobType, Job, new_job, attempted}
use multi_agent_ai_analyst.Queue.Redis.{Redis, Stored, dumped, unreadable, members_upto}

-- `_load`
unfoldable pub load : Stored → Option Job
load (dumped job) = some job
load unreadable = none

pub record Limits : Type 0 where
  pub max_attempts : ℕ
  pub visibility : ℕ

module _ (redis : Redis) (limits : Limits) where
  open redis use {Server, keys, hset, hdel, rpush_pending, blpop_pending, zadd, zrem, rpush_dead}

  -- `id` is the fresh `uuid4()`.
  unfoldable pub enqueue : ℕ → JobType → List (Text × Text) → Server → ℕ × Server
  unfolding new_job
  enqueue id type payload s = (id, rpush_pending id (hset id (dumped (new_job id type payload)) s))

  -- The id that `BLPOP` takes off the pending list, if it is not empty until the timeout.
  popped : List ℕ → Server → Option ℕ × Server
  popped [] s = (none, s)
  popped (id ∷ _) s = (some id, blpop_pending s)

  unfoldable pub claim_pop : Server → Option ℕ × Server
  unfolding popped
  claim_pop s = popped (keys s).pending s

  loaded : (now : ℕ) (id : ℕ) → Option Stored → Server → Option Job × Server
  unfolding load
  loaded now id none s = (none, s)
  loaded now id (some unreadable) s = (none, hdel id s)
  loaded now id (some (dumped job)) s = (some job, zadd id (now + limits.visibility) s)

  claimed : (now : ℕ) → Option ℕ × Server → Option Job × Server
  unfolding loaded
  claimed now (none, s) = (none, s)
  claimed now (some id, s) = loaded now id ((keys s).jobs id) s

  unfoldable pub claim : (now : ℕ) → Server → Option Job × Server
  unfolding claim_pop claimed
  claim now s = claimed now (claim_pop s)

  unfoldable pub ack : Job → Server → Server
  ack job s = hdel job.id (zrem job.id s)

  unfoldable pub retry : Job → Server → Bool × Server
  unfolding attempted
  retry job s =
      if leb limits.max_attempts (attempted job).attempts
      then (false, rpush_dead (dumped (attempted job)) (hdel job.id (zrem job.id s)))
      else (true, rpush_pending job.id (zrem job.id (hset job.id (dumped (attempted job)) s)))

  -- One round of the loop of `recover_expired`; the number counts the jobs that go back.
  recover_read : ℕ → Option Stored → ℕ × Server → ℕ × Server
  unfolding retry load
  recover_read id none (n, s) = (n, zrem id s)
  recover_read id (some unreadable) (n, s) = (n, hdel id (zrem id s))
  recover_read id (some (dumped job)) (n, s) =
      let (again, s') = retry job s in ((if again then n + 1 else n), s')

  unfoldable pub recover_one : ℕ → ℕ × Server → ℕ × Server
  unfolding recover_read
  recover_one id (n, s) = recover_read id ((keys s).jobs id) (n, s)

  unfoldable pub recover_all : List ℕ → ℕ × Server → ℕ × Server
  recover_all [] acc = acc
  recover_all (id ∷ ids) acc = recover_all ids (recover_one id acc)

  unfoldable pub recover_expired : (now : ℕ) → Server → ℕ × Server
  recover_expired now s = recover_all (members_upto now (keys s).inflight) (0, s)

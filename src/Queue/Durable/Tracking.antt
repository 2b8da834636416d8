-- ===== src/Queue/Durable/Tracking.antt =====
-- No job that the queue stores is out of reach of its workers.
use multi_agent_ai_analyst.Prelude.{
  ap, ◌==◌, ℕ, ◌+◌, ◌<◌, ◌≡◌, refl, Bool, true, false, ◌||◌, List, [], ◌∷◌, Option, none, some,
  arith,
}
use multi_agent_ai_analyst.Prelude.Text.{Text}
use multi_agent_ai_analyst.Queue.Jobs.{JobType, Job}
use multi_agent_ai_analyst.Queue.Redis.{
  drop_first, Redis, Keys, Stored, dumped, unreadable, plain_redis, members_upto, elem, is_member,
  elem-snoc, is_member-remove_member, is_member-set_member,
}
use multi_agent_ai_analyst.Queue.Durable.Independence.{
  keys-enqueue, keys-ack, look-retry, look-claim, look-recover_all,
}
use multi_agent_ai_analyst.Queue.Durable.{
  Limits, enqueue, claim, claim_pop, popped, claimed, loaded, ack, retry, recover_read, recover_one,
  recover_all, recover_expired,
}

abbrev pub is_stored : Option Stored → Bool
is_stored none = false
is_stored (some v) = true

-- A stored job stands under its id, has attempts left, and is pending or in flight.
pub record Tracked (limits : Limits) (k : Keys) : Type 0 where
  pub named :
      (i : ℕ) (job : Job)
      → k.jobs i ≡ some (dumped job)
      → (job.id ≡ i) × (job.attempts < limits.max_attempts)
  pub held :
      (i : ℕ) → is_stored (k.jobs i) ≡ true → (elem i k.pending || is_member i k.inflight) ≡ true

module _ (limits : Limits) where
  Tracked-enqueue :
      (id : ℕ) (type : JobType) (payload : List (Text × Text)) (k : Keys)
      → 0 < limits.max_attempts
      → Tracked limits k
      → Tracked limits (enqueue plain_redis limits id type payload k).1
  unfolding enqueue
  Tracked-enqueue id type payload k pos t = record {
    named = λ i job e. ground (arith, t.named i job);
    held = λ i h. ground (arith, t.held i, elem-snoc i id k.pending);
  }

  Tracked-ack :
      (job : Job) (k : Keys) → Tracked limits k → Tracked limits (ack plain_redis limits job k)
  unfolding ack
  Tracked-ack job k t = record {
    named = λ i j e. ground (arith, t.named i j);
    held = λ i h. ground (arith, t.held i, is_member-remove_member job.id i k.inflight);
  }

  Tracked-retry :
      (job : Job) (k : Keys) → Tracked limits k → Tracked limits (retry plain_redis limits job k).1
  unfolding retry
  Tracked-retry job k t = record {
    named = λ i j e. ground (arith, t.named i j);
    held = λ i h. ground (
      arith,
      t.held i,
      elem-snoc i job.id k.pending,
      is_member-remove_member job.id i k.inflight,
    );
  }

  -- The id that a claim has taken off the pending list is the only one that may be untracked.
  loaded-Tracked :
      (now id : ℕ) (k : Keys)
      → ((i : ℕ) (job : Job)
          → k.jobs i ≡ some (dumped job)
          → (job.id ≡ i) × (job.attempts < limits.max_attempts))
      → ((i : ℕ)
          → is_stored (k.jobs i) ≡ true
          → (i == id || (elem i k.pending || is_member i k.inflight)) ≡ true)
      → (o : Option Stored) → k.jobs id ≡ o
      → Tracked limits (loaded plain_redis limits now id o k).1
  unfolding loaded
  loaded-Tracked now id k named held none e = record {
    named = named;
    held = λ i h. ground (arith, held i h);
  }
  loaded-Tracked now id k named held (some unreadable) e = record {
    named = λ i job q. ground (arith, named i job);
    held = λ i h. ground (arith, held i);
  }
  loaded-Tracked now id k named held (some (dumped job)) e = record {
    named = named;
    held = λ i h.
        ground (arith, held i h, is_member-set_member id (now + limits.visibility) i k.inflight);
  }

  claimed-Tracked :
      (now : ℕ) (pending : List ℕ) (k : Keys)
      → k.pending ≡ pending
      → Tracked limits k
      → Tracked limits (claimed plain_redis limits now (popped plain_redis limits pending k)).1
  unfolding claimed popped elem
  claimed-Tracked now [] k e t = t
  claimed-Tracked now (id ∷ ids) k e t =
      loaded-Tracked now id (record k { pending = drop_first k.pending }) t.named
        (λ i h. ground (arith, t.held i h, e)) (k.jobs id) refl

  Tracked-claim :
      (now : ℕ) (k : Keys) → Tracked limits k → Tracked limits (claim plain_redis limits now k).1
  unfolding claim claim_pop
  Tracked-claim now k t = claimed-Tracked now k.pending k refl t

  recover_read-Tracked :
      (id n : ℕ) (k : Keys) (o : Option Stored)
      → k.jobs id ≡ o
      → Tracked limits k
      → Tracked limits (recover_read plain_redis limits id o (n, k)).1
  unfolding recover_read
  recover_read-Tracked id n k none e t = record {
    named = t.named;
    held = λ i h. ground (arith, t.held i h, is_member-remove_member id i k.inflight);
  }
  recover_read-Tracked id n k (some unreadable) e t = record {
    named = λ i job q. ground (arith, t.named i job);
    held = λ i h. ground (arith, t.held i, is_member-remove_member id i k.inflight);
  }
  recover_read-Tracked id n k (some (dumped job)) e t = Tracked-retry job k t

  Tracked-recover_all :
      (ids : List ℕ) (n : ℕ) (k : Keys)
      → Tracked limits k
      → Tracked limits (recover_all plain_redis limits ids (n, k)).1
  unfolding recover_all recover_one
  Tracked-recover_all [] n k t = t
  Tracked-recover_all (id ∷ ids) n k t =
      let r = recover_one plain_redis limits id (n, k) in
      Tracked-recover_all ids r.0 r.1 (recover_read-Tracked id n k (k.jobs id) refl t)

-- The calls that workers and the web process make, one at a time.
pub data Call : Type 0 where
  enqueue_call : (id : ℕ) (type : JobType) (payload : List (Text × Text)) → Call
  claim_call : (now : ℕ) → Call
  ack_call retry_call : (job : Job) → Call
  recover_call : (now : ℕ) → Call

module _ (redis : Redis) (limits : Limits) where
  open redis use {Server, keys}

  unfoldable pub call : Call → Server → Server
  call (enqueue_call id type payload) s = (enqueue redis limits id type payload s).1
  call (claim_call now) s = (claim redis limits now s).1
  call (ack_call job) s = ack redis limits job s
  call (retry_call job) s = (retry redis limits job s).1
  call (recover_call now) s = (recover_expired redis limits now s).1

  unfoldable pub calls : List Call → Server → Server
  calls [] s = s
  calls (c ∷ cs) s = calls cs (call c s)

  call-Tracked :
      0 < limits.max_attempts
      → (c : Call) (s : Server) → Tracked limits (keys s)
      → Tracked limits (keys (call c s))
  unfolding call recover_expired
  call-Tracked pos (enqueue_call id type payload) s t =
      rw (keys-enqueue redis limits id type payload s)
        (Tracked-enqueue limits id type payload (keys s) pos t)
  call-Tracked pos (claim_call now) s t =
      rw (ap (λ (r : Option Job × Keys). r.1) (look-claim redis limits now s))
        (Tracked-claim limits now (keys s) t)
  call-Tracked pos (ack_call job) s t =
      rw (keys-ack redis limits job s) (Tracked-ack limits job (keys s) t)
  call-Tracked pos (retry_call job) s t =
      rw (ap (λ (r : Bool × Keys). r.1) (look-retry redis limits job s))
        (Tracked-retry limits job (keys s) t)
  call-Tracked pos (recover_call now) s t =
      rw
        (ap (λ (r : ℕ × Keys). r.1)
          (look-recover_all redis limits (members_upto now (keys s).inflight) 0 s))
        (Tracked-recover_all limits (members_upto now (keys s).inflight) 0 (keys s) t)

  -- If jobs may be attempted at all, then whatever the server is, after any calls in any order, each
  -- call alone, every stored job stands under its id, has attempts left, and is pending
  -- or in flight, provided that this held before. So no call loses a job that it keeps stored.
  pub calls-Tracked :
      0 < limits.max_attempts
      → (cs : List Call) (s : Server) → Tracked limits (keys s)
      → Tracked limits (keys (calls cs s))
  unfolding calls
  calls-Tracked pos [] s t = t
  calls-Tracked pos (c ∷ cs) s t = calls-Tracked pos cs (call c s) (call-Tracked pos c s t)

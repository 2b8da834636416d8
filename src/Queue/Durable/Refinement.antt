-- ===== src/Queue/Durable/Refinement.antt =====
-- The durable queue does what the in-memory queue does, job for job, while no lease expires.
use multi_agent_ai_analyst.Prelude.{
  ◌∙◌, sym, ap, ℕ, ◌+◌, ◌≡◌, refl, Bool, false, List, [], ◌∷◌, ◌++◌, Option, none, some, arith, map,
  leb, Bool-cases, inl, inr,
}
use multi_agent_ai_analyst.Prelude.Text.{Text}
use multi_agent_ai_analyst.Queue.Jobs.{JobType, Job, new_job, attempted}
use multi_agent_ai_analyst.Queue.InMemory
use multi_agent_ai_analyst.Queue.InMemory.{Memory}
use multi_agent_ai_analyst.Queue.Redis.{
  Redis, Keys, Stored, dumped, plain_redis, elem, elem-snoc, put,
}
use multi_agent_ai_analyst.Queue.Durable.{
  Limits, enqueue, claim, claim_pop, popped, claimed, loaded, ack, retry,
}
use multi_agent_ai_analyst.Queue.Durable.Independence.{
  keys-enqueue, keys-ack, look-retry, look-claim,
}

-- The pending ids name the pending jobs, in order, each once.
abbrev pub Lists : List ℕ → (ℕ → Option Stored) → List Job → Type 0
Lists [] jobs [] = Unit
Lists [] jobs (j ∷ js) = ⊥
Lists (i ∷ ids) jobs [] = ⊥
Lists (i ∷ ids) jobs (j ∷ js) =
    (j.id ≡ i) × (jobs i ≡ some (dumped j)) × (elem i ids ≡ false) × Lists ids jobs js

pub record Implements (k : Keys) (q : Memory) : Type 0 where
  pub pending : Lists k.pending k.jobs q.pending
  pub dead : k.dead ≡ map dumped q.dead

Lists-put :
    (ids : List ℕ) (jobs : ℕ → Option Stored) (js : List Job) (i : ℕ) (v : Option Stored)
    → elem i ids ≡ false
    → Lists ids jobs js
    → Lists ids (put i v jobs) js
unfolding elem
Lists-put [] jobs [] i v ne h = tt
Lists-put [] jobs (j ∷ js) i v ne h = h
Lists-put (x ∷ ids) jobs [] i v ne h = h
Lists-put (x ∷ ids) jobs (j ∷ js) i v ne h =
    (h.0, ground arith, h.2, Lists-put ids jobs js i v (ground arith) h.3)

Lists-snoc :
    (ids : List ℕ) (jobs : ℕ → Option Stored) (js : List Job) (j : Job)
    → elem j.id ids ≡ false
    → jobs j.id ≡ some (dumped j)
    → Lists ids jobs js
    → Lists (ids ++ j.id ∷ []) jobs (js ++ j ∷ [])
unfolding elem
Lists-snoc [] jobs [] j ne e h = (refl, e, refl, tt)
Lists-snoc [] jobs (i ∷ js) j ne e h = absurd h
Lists-snoc (x ∷ ids) jobs [] j ne e h = absurd h
Lists-snoc (x ∷ ids) jobs (i ∷ js) j ne e h =
    (h.0, h.1, ground (arith, elem-snoc x j.id ids), Lists-snoc ids jobs js j (ground arith) e h.3)

map-snoc {ℓ κ} :
    {A : Type ℓ} {B : Type κ} (f : A → B) (xs : List A) (x : A)
    → map f (xs ++ x ∷ []) ≡ map f xs ++ f x ∷ []
map-snoc f [] x = refl
map-snoc f (y ∷ xs) x = ap (◌∷◌ (f y)) (map-snoc f xs x)

module _ (limits : Limits) (k : Keys) (q : Memory) (r : Implements k q) where
  Implements-enqueue :
      (id : ℕ) (type : JobType) (payload : List (Text × Text))
      → elem id k.pending ≡ false
      → Implements
          (enqueue plain_redis limits id type payload k).1
          (InMemory.enqueue id type payload q).1
  unfolding enqueue InMemory.enqueue
  Implements-enqueue id type payload fresh = record {
    pending =
        Lists-snoc k.pending (put id (some (dumped (new_job id type payload))) k.jobs) q.pending
          (new_job id type payload) fresh (ground arith)
          (Lists-put k.pending k.jobs q.pending id (some (dumped (new_job id type payload))) fresh
            r.pending);
    dead = r.dead;
  }

  Implements-retry :
      (job : Job)
      → elem job.id k.pending ≡ false
      → ((retry plain_redis limits job k).0 ≡ (InMemory.retry limits.max_attempts job q).0)
        × Implements (retry plain_redis limits job k).1 (InMemory.retry limits.max_attempts job q).1
  unfolding retry InMemory.retry
  Implements-retry job out = elim (Bool-cases (leb limits.max_attempts (job.attempts + 1))) [
    | inl last ↦ rw last (
      refl,
      record {
        pending = Lists-put k.pending k.jobs q.pending job.id none out r.pending;
        dead = rw r.dead (sym (map-snoc dumped q.dead (attempted job)));
      },
    )
    | inr more ↦ rw more (
      refl,
      record {
        pending =
            Lists-snoc k.pending (put job.id (some (dumped (attempted job))) k.jobs) q.pending
              (attempted job) out (ground arith)
              (Lists-put k.pending k.jobs q.pending job.id (some (dumped (attempted job))) out
                r.pending);
        dead = r.dead;
      },
    )
  ]

  Implements-ack :
      (job : Job)
      → elem job.id k.pending ≡ false
      → Implements (ack plain_redis limits job k) (InMemory.ack job q)
  unfolding ack InMemory.ack
  Implements-ack job out = record {
    pending = Lists-put k.pending k.jobs q.pending job.id none out r.pending;
    dead = r.dead;
  }

module _ (limits : Limits) where
  Implements-popped :
      (now : ℕ) (k : Keys) (q : Memory) (ids : List ℕ) (js : List Job)
      → k.pending ≡ ids
      → q.pending ≡ js
      → Lists ids k.jobs js
      → k.dead ≡ map dumped q.dead
      → ((claimed plain_redis limits now (popped plain_redis limits ids k)).0
          ≡ (InMemory.pop js q).0)
        × Implements
            (claimed plain_redis limits now (popped plain_redis limits ids k)).1
            (InMemory.pop js q).1
  unfolding claimed popped loaded InMemory.pop
  Implements-popped now k q [] [] e f l d = (refl, record { pending = rw (e, f) tt; dead = d })
  Implements-popped now k q [] (j ∷ js) e f l d = absurd l
  Implements-popped now k q (i ∷ ids) [] e f l d = absurd l
  Implements-popped now k q (i ∷ ids) (j ∷ js) e f l d =
      rw l.1 (refl, record { pending = rw e l.3; dead = d })

  Implements-claim :
      (now : ℕ) (k : Keys) (q : Memory)
      → Implements k q
      → ((claim plain_redis limits now k).0 ≡ (InMemory.claim q).0)
        × Implements (claim plain_redis limits now k).1 (InMemory.claim q).1
  unfolding claim claim_pop InMemory.claim
  Implements-claim now k q r =
      Implements-popped now k q k.pending q.pending refl refl r.pending r.dead

  module _ (redis : Redis) (s : redis.Server) (q : Memory) (r : Implements (redis.keys s) q) where
    -- Over any server, each method of the durable queue returns what the in-memory queue returns and
    -- leaves states that still agree: the same jobs pending in the same order, and the same dead
    -- jobs. A new id must not be pending, and neither must the job that is acked or retried.
    pub methods_refine :
        (now id : ℕ) (type : JobType) (payload : List (Text × Text)) (job : Job)
        → elem id (redis.keys s).pending ≡ false
        → elem job.id (redis.keys s).pending ≡ false
        → Implements
            (redis.keys (enqueue redis limits id type payload s).1)
            (InMemory.enqueue id type payload q).1
          × ((claim redis limits now s).0 ≡ (InMemory.claim q).0)
          × Implements (redis.keys (claim redis limits now s).1) (InMemory.claim q).1
          × Implements (redis.keys (ack redis limits job s)) (InMemory.ack job q)
          × ((retry redis limits job s).0 ≡ (InMemory.retry limits.max_attempts job q).0)
          × Implements
              (redis.keys (retry redis limits job s).1)
              (InMemory.retry limits.max_attempts job q).1
    methods_refine now id type payload job fresh out =
        let c = Implements-claim now (redis.keys s) q r in
        let t = Implements-retry limits (redis.keys s) q r job out in
        let lc = look-claim redis limits now s in
        let lr = look-retry redis limits job s in
        (
          rw (keys-enqueue redis limits id type payload s)
              (Implements-enqueue limits (redis.keys s) q r id type payload fresh),
          ap (λ (x : Option Job × Keys). x.0) lc ∙ c.0,
          rw (ap (λ (x : Option Job × Keys). x.1) lc) c.1,
          rw (keys-ack redis limits job s) (Implements-ack limits (redis.keys s) q r job out),
          ap (λ (x : Bool × Keys). x.0) lr ∙ t.0,
          rw (ap (λ (x : Bool × Keys). x.1) lr) t.1,
        )

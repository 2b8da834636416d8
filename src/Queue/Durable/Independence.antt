-- ===== src/Queue/Durable/Independence.antt =====
-- The methods act on what can be read of the server, whatever the server is.
use multi_agent_ai_analyst.Prelude.{
  ap, ◌∙◌, ℕ, ◌+◌, ◌≡◌, refl, Bool, List, [], ◌∷◌, Option, none, some, leb, if◌then◌else◌,
  Bool-cases, inl, inr,
}
use multi_agent_ai_analyst.Prelude.Text.{Text}
use multi_agent_ai_analyst.Queue.Jobs.{JobType, Job}
use multi_agent_ai_analyst.Queue.Redis.{
  Redis, Keys, Stored, dumped, unreadable, plain_redis, members_upto, redis_laws,
}
use multi_agent_ai_analyst.Queue.Durable.{
  Limits, enqueue, claim, claim_pop, popped, claimed, loaded, ack, retry, recover_read, recover_one,
  recover_all, recover_expired,
}

module _ (redis : Redis) (limits : Limits) where
  open redis use {Server, keys}

  pub keys-enqueue :
      (id : ℕ) (type : JobType) (payload : List (Text × Text)) (s : Server)
      → keys (enqueue redis limits id type payload s).1
        ≡ (enqueue plain_redis limits id type payload (keys s)).1
  unfolding enqueue
  keys-enqueue id type payload s = simp redis_laws

  pub keys-ack :
      (job : Job) (s : Server) → keys (ack redis limits job s) ≡ ack plain_redis limits job (keys s)
  unfolding ack
  keys-ack job s = simp redis_laws

  -- A result beside a server, read.
  abbrev pub look {ℓ} : {A : Type ℓ} → A × Server → A × Keys
  look (a, s) = (a, keys s)

  pub look-retry :
      (job : Job) (s : Server)
      → look (retry redis limits job s) ≡ retry plain_redis limits job (keys s)
  unfolding retry
  look-retry job s = elim (Bool-cases (leb limits.max_attempts (job.attempts + 1))) [
    | inl last ↦ simp (last, redis_laws)
    | inr more ↦ simp (more, redis_laws)
  ]

  look-popped :
      (pending : List ℕ) (s : Server)
      → look (popped redis limits pending s) ≡ popped plain_redis limits pending (keys s)
  unfolding popped
  look-popped [] s = refl
  look-popped (id ∷ ids) s = simp redis_laws

  look-loaded :
      (now id : ℕ) (o : Option Stored) (s : Server)
      → look (loaded redis limits now id o s) ≡ loaded plain_redis limits now id o (keys s)
  unfolding loaded
  look-loaded now id none s = refl
  look-loaded now id (some unreadable) s = simp redis_laws
  look-loaded now id (some (dumped job)) s = simp redis_laws

  look-claimed :
      (now : ℕ) (o : Option ℕ) (s : Server)
      → look (claimed redis limits now (o, s)) ≡ claimed plain_redis limits now (o, keys s)
  unfolding claimed
  look-claimed now none s = refl
  look-claimed now (some id) s = look-loaded now id ((keys s).jobs id) s

  pub look-claim :
      (now : ℕ) (s : Server)
      → look (claim redis limits now s) ≡ claim plain_redis limits now (keys s)
  unfolding claim claim_pop
  look-claim now s =
      look-claimed now (popped redis limits (keys s).pending s).0
        (popped redis limits (keys s).pending s).1
      ∙ ap (claimed plain_redis limits now) (look-popped (keys s).pending s)

  look-recover_read :
      (id : ℕ) (o : Option Stored) (n : ℕ) (s : Server)
      → look (recover_read redis limits id o (n, s))
        ≡ recover_read plain_redis limits id o (n, keys s)
  unfolding recover_read
  look-recover_read id none n s = simp redis_laws
  look-recover_read id (some unreadable) n s = simp redis_laws
  look-recover_read id (some (dumped job)) n s =
      ap (λ (r : Bool × Keys). ((if r.0 then n + 1 else n), r.1)) (look-retry job s)

  pub look-recover_all :
      (ids : List ℕ) (n : ℕ) (s : Server)
      → look (recover_all redis limits ids (n, s)) ≡ recover_all plain_redis limits ids (n, keys s)
  unfolding recover_all recover_one
  look-recover_all [] n s = refl
  look-recover_all (id ∷ ids) n s =
      let r = recover_one redis limits id (n, s) in
      look-recover_all ids r.0 r.1
      ∙ ap (recover_all plain_redis limits ids) (look-recover_read id ((keys s).jobs id) n s)

  -- Recovery reads and writes only the keys.
  pub look-recover_expired :
      (now : ℕ) (s : Server)
      → look (recover_expired redis limits now s) ≡ recover_expired plain_redis limits now (keys s)
  unfolding recover_expired
  look-recover_expired now s = look-recover_all (members_upto now (keys s).inflight) 0 s

-- ===== src/Queue/Durable/Crash.antt =====
-- A worker that dies between `BLPOP` and `ZADD` of a claim.
use multi_agent_ai_analyst.Prelude.{
  ◌==◌, ap, ℕ, ◌≡◌, refl, false, List, [], ◌∷◌, Option, none, some, arith,
}
use multi_agent_ai_analyst.Queue.Jobs.{Job}
use multi_agent_ai_analyst.Queue.Redis.{
  Redis, Keys, Stored, dumped, unreadable, plain_redis, members_upto, elem, is_member, elem-snoc,
  elem-members_upto, is_member-remove_member, blpop_pending_law,
}
use multi_agent_ai_analyst.Queue.Durable.{
  Limits, claim_pop, popped, retry, recover_read, recover_one, recover_all, recover_expired,
}
use multi_agent_ai_analyst.Queue.Durable.Independence.{look-recover_all}

-- A job that is stored, and neither pending nor in flight.
pub record IsLost (id : ℕ) (job : Job) (k : Keys) : Type 0 where
  pub stored : k.jobs id ≡ some (dumped job)
  pub not_pending : elem id k.pending ≡ false
  pub not_inflight : is_member id k.inflight ≡ false

module _ (limits : Limits) (id : ℕ) (job : Job) where
  retry-IsLost :
      (other : Job) (k : Keys)
      → (other.id == id) ≡ false
      → IsLost id job k
      → IsLost id job (retry plain_redis limits other k).1
  unfolding retry
  retry-IsLost other k ne l = record {
    stored = ground arith;
    not_pending = ground (arith, elem-snoc id other.id k.pending);
    not_inflight = ground (arith, is_member-remove_member other.id id k.inflight);
  }

  -- The jobs stand under their ids.
  abbrev Named : Keys → Type 0
  Named k = (i : ℕ) (j : Job) → k.jobs i ≡ some (dumped j) → j.id ≡ i

  retry-Named : (other : Job) (k : Keys) → Named k → Named (retry plain_redis limits other k).1
  unfolding retry
  retry-Named other k h i j e = ground (arith, h i j)

  recover_read-IsLost :
      (other n : ℕ) (k : Keys) (o : Option Stored)
      → k.jobs other ≡ o
      → (other == id) ≡ false
      → Named k
      → IsLost id job k
      → let r = recover_read plain_redis limits other o (n, k) in Named r.1 × IsLost id job r.1
  unfolding recover_read
  recover_read-IsLost other n k none e ne h l = (
    h,
    record {
      stored = l.stored;
      not_pending = l.not_pending;
      not_inflight = ground (arith, is_member-remove_member other id k.inflight);
    },
  )
  recover_read-IsLost other n k (some unreadable) e ne h l = (
    (λ i j q. ground (arith, h i j)),
    record {
      stored = ground arith;
      not_pending = l.not_pending;
      not_inflight = ground (arith, is_member-remove_member other id k.inflight);
    },
  )
  recover_read-IsLost other n k (some (dumped j)) e ne h l =
      (retry-Named j k h, retry-IsLost j k (rw (h other j e) ne) l)

  recover_all-IsLost :
      (ids : List ℕ) (n : ℕ) (k : Keys)
      → elem id ids ≡ false
      → Named k
      → IsLost id job k
      → IsLost id job (recover_all plain_redis limits ids (n, k)).1
  unfolding recover_all recover_one elem
  recover_all-IsLost [] n k ne h l = l
  recover_all-IsLost (other ∷ ids) n k ne h l =
      let r = recover_one plain_redis limits other (n, k) in
      let x = recover_read-IsLost other n k (k.jobs other) refl (ground arith) h l in
      recover_all-IsLost ids r.0 r.1 (ground arith) x.0 x.1

  not_due : (now : ℕ) (k : Keys) → IsLost id job k → elem id (members_upto now k.inflight) ≡ false
  not_due now k l = ground (arith, elem-members_upto now id k.inflight, l.not_inflight)

module _ (redis : Redis) (limits : Limits) where
  open redis use {Server, keys}

  popped-keys :
      (s : Server) (id : ℕ) (rest : List ℕ)
      → (keys s).pending ≡ id ∷ rest
      → keys (claim_pop redis limits s).1 ≡ record (keys s) { pending = rest }
  unfolding claim_pop popped
  popped-keys s id rest e = ground (arith, blpop_pending_law redis s)

  -- If a worker dies after the `BLPOP` of a claim and before its `ZADD`, and the job that it popped
  -- was pending once and not in flight, then the job stays stored and is neither pending nor in
  -- flight, and no later `recover_expired` brings it back.
  pub claim_crash_loses :
      (s : Server) (id : ℕ) (rest : List ℕ) (job : Job) (now : ℕ)
      → (keys s).pending ≡ id ∷ rest
      → elem id rest ≡ false
      → is_member id (keys s).inflight ≡ false
      → (keys s).jobs id ≡ some (dumped job)
      → ((i : ℕ) (j : Job) → (keys s).jobs i ≡ some (dumped j) → j.id ≡ i)
      → IsLost id job (keys (recover_expired redis limits now (claim_pop redis limits s).1).1)
  unfolding recover_expired
  claim_crash_loses s id rest job now e once idle stored named =
      let s' = (claim_pop redis limits s).1 in
      let l : IsLost id job (keys s') =
        rw (popped-keys s id rest e)
          (record { stored = stored; not_pending = once; not_inflight = idle }) in
      rw
        (ap (λ (r : ℕ × Keys). r.1)
          (look-recover_all redis limits (members_upto now (keys s').inflight) 0 s'))
        (recover_all-IsLost limits id job (members_upto now (keys s').inflight) 0 (keys s')
          (not_due limits id job now (keys s') l) (rw (popped-keys s id rest e) named) l)

-- ===== src/Queue/Redis.antt =====
-- The Redis server behind the durable queue: what a client can read of it, and the commands that the
-- queue sends. The server is not part of the program, so it is a parameter with the documented
-- effect of each command.
use multi_agent_ai_analyst.Prelude.{
  arith, refl, ◌&&◌, ℕ, ◌≡◌, Bool, true, false, ◌||◌, List, [], ◌∷◌, ◌++◌, Option, none, some, ltb,
  leb, ◌==◌, if◌then◌else◌,
}
use multi_agent_ai_analyst.Queue.Jobs.{Job}

-- A text in the hash of jobs: one that `_dump` wrote of a job, or one that `_load` cannot read.
pub data Stored : Type 0 where
  dumped : Job → Stored
  unreadable : Stored

-- A map with one key written.
abbrev pub put {ℓ} : {A : Type ℓ} → ℕ → A → (ℕ → A) → ℕ → A
put k v m j = if k == j then v else m j

-- `k in xs`
unfoldable pub elem : ℕ → List ℕ → Bool
elem k [] = false
elem k (x ∷ xs) = x == k || elem k xs

-- A sorted set: each member once, with its score, by score and then by member.
abbrev pub SortedSet : Type 0
SortedSet = List (ℕ × ℕ)

unfoldable pub remove_member : ℕ → SortedSet → SortedSet
remove_member k [] = []
remove_member k ((j, d) ∷ z) =
    let rest = remove_member k z in if j == k then rest else (j, d) ∷ rest

insert_member : ℕ → ℕ → SortedSet → SortedSet
insert_member k d [] = (k, d) ∷ []
insert_member k d ((j, e) ∷ z) =
    if ltb d e || (d == e && ltb k j) then (k, d) ∷ (j, e) ∷ z else (j, e) ∷ insert_member k d z

-- A new member, or a new score for an old one.
unfoldable pub set_member : ℕ → ℕ → SortedSet → SortedSet
unfolding insert_member
set_member k d z = insert_member k d (remove_member k z)

-- The members with a score of at most the bound.
unfoldable pub members_upto : ℕ → SortedSet → List ℕ
members_upto t [] = []
members_upto t ((j, d) ∷ z) = let rest = members_upto t z in if leb d t then j ∷ rest else rest

unfoldable pub is_member : ℕ → SortedSet → Bool
is_member k [] = false
is_member k ((j, d) ∷ z) = j == k || is_member k z

pub elem-snoc : (k j : ℕ) (xs : List ℕ) → elem k (xs ++ j ∷ []) ≡ elem k xs || (j == k)
unfolding elem
elem-snoc k j [] = ground arith
elem-snoc k j (x ∷ xs) = ground (arith, elem-snoc k j xs)

pub is_member-remove_member :
    (k j : ℕ) (z : SortedSet)
    → is_member j (remove_member k z) ≡ (if k == j then false else is_member j z)
unfolding is_member remove_member
is_member-remove_member k j [] = ground arith
is_member-remove_member k j ((i, d) ∷ z) = ground (arith, is_member-remove_member k j z)

is_member-insert_member :
    (k d j : ℕ) (z : SortedSet) → is_member j (insert_member k d z) ≡ (k == j) || is_member j z
unfolding is_member insert_member
is_member-insert_member k d j [] = ground arith
is_member-insert_member k d j ((i, e) ∷ z) = ground (arith, is_member-insert_member k d j z)

pub is_member-set_member :
    (k d j : ℕ) (z : SortedSet) → is_member j (set_member k d z) ≡ (k == j) || is_member j z
unfolding set_member
is_member-set_member k d j z =
    ground (arith, is_member-insert_member k d j (remove_member k z), is_member-remove_member k j z)

pub elem-members_upto :
    (t k : ℕ) (z : SortedSet) → elem k (members_upto t z) ≡ true → is_member k z ≡ true
unfolding elem members_upto is_member
elem-members_upto t k [] h = cc
elem-members_upto t k ((j, d) ∷ z) h = ground (arith, elem-members_upto t k z)

abbrev pub drop_first {ℓ} : {A : Type ℓ} → List A → List A
drop_first [] = []
drop_first (x ∷ xs) = xs

-- The keys of the queue: the hash of jobs, the list of pending ids, the deadlines of the jobs in
-- flight, and the list of dead jobs.
pub record Keys : Type 0 where
  pub jobs : ℕ → Option Stored
  pub pending : List ℕ
  pub inflight : SortedSet
  pub dead : List Stored

pub record Redis : Type 1 where
  pub Server : Type 0
  pub keys : Server → Keys
  pub hset : ℕ → Stored → Server → Server
  pub hdel : ℕ → Server → Server
  pub rpush_pending : ℕ → Server → Server
  pub blpop_pending : Server → Server
  pub zadd : ℕ → ℕ → Server → Server
  pub zrem : ℕ → Server → Server
  pub rpush_dead : Stored → Server → Server
  pub keys-hset :
      (k : ℕ) (v : Stored) (s : Server)
      → keys (hset k v s) ≡ record (keys s) { jobs = put k (some v) (keys s).jobs }
  pub keys-hdel :
      (k : ℕ) (s : Server) → keys (hdel k s) ≡ record (keys s) { jobs = put k none (keys s).jobs }
  pub keys-rpush_pending :
      (k : ℕ) (s : Server)
      → keys (rpush_pending k s) ≡ record (keys s) { pending = (keys s).pending ++ k ∷ [] }
  pub keys-blpop_pending :
      (s : Server)
      → keys (blpop_pending s) ≡ record (keys s) { pending = drop_first (keys s).pending }
  pub keys-zadd :
      (k d : ℕ) (s : Server)
      → keys (zadd k d s) ≡ record (keys s) { inflight = set_member k d (keys s).inflight }
  pub keys-zrem :
      (k : ℕ) (s : Server)
      → keys (zrem k s) ≡ record (keys s) { inflight = remove_member k (keys s).inflight }
  pub keys-rpush_dead :
      (v : Stored) (s : Server)
      → keys (rpush_dead v s) ≡ record (keys s) { dead = (keys s).dead ++ v ∷ [] }

-- The laws as lemmas, for `simp`.
module _ (redis : Redis) where
  open redis use {Server, keys, hset, hdel, rpush_pending, blpop_pending, zadd, zrem, rpush_dead}

  pub hset_law :
      (k : ℕ) (v : Stored) (s : Server)
      → keys (hset k v s) ≡ record (keys s) { jobs = put k (some v) (keys s).jobs }
  hset_law = redis.keys-hset

  pub hdel_law :
      (k : ℕ) (s : Server) → keys (hdel k s) ≡ record (keys s) { jobs = put k none (keys s).jobs }
  hdel_law = redis.keys-hdel

  pub rpush_pending_law :
      (k : ℕ) (s : Server)
      → keys (rpush_pending k s) ≡ record (keys s) { pending = (keys s).pending ++ k ∷ [] }
  rpush_pending_law = redis.keys-rpush_pending

  pub blpop_pending_law :
      (s : Server)
      → keys (blpop_pending s) ≡ record (keys s) { pending = drop_first (keys s).pending }
  blpop_pending_law = redis.keys-blpop_pending

  pub zadd_law :
      (k d : ℕ) (s : Server)
      → keys (zadd k d s) ≡ record (keys s) { inflight = set_member k d (keys s).inflight }
  zadd_law = redis.keys-zadd

  pub zrem_law :
      (k : ℕ) (s : Server)
      → keys (zrem k s) ≡ record (keys s) { inflight = remove_member k (keys s).inflight }
  zrem_law = redis.keys-zrem

  pub rpush_dead_law :
      (v : Stored) (s : Server)
      → keys (rpush_dead v s) ≡ record (keys s) { dead = (keys s).dead ++ v ∷ [] }
  rpush_dead_law = redis.keys-rpush_dead

pub ruleset redis_laws =
    (hset_law, hdel_law, rpush_pending_law, blpop_pending_law, zadd_law, zrem_law, rpush_dead_law)

-- A server that is its keys.
abbrev pub plain_redis : Redis
plain_redis = record {
  Server = Keys;
  keys = λ s. s;
  hset = λ k v s. record s { jobs = put k (some v) s.jobs };
  hdel = λ k s. record s { jobs = put k none s.jobs };
  rpush_pending = λ k s. record s { pending = s.pending ++ k ∷ [] };
  blpop_pending = λ s. record s { pending = drop_first s.pending };
  zadd = λ k d s. record s { inflight = set_member k d s.inflight };
  zrem = λ k s. record s { inflight = remove_member k s.inflight };
  rpush_dead = λ v s. record s { dead = s.dead ++ v ∷ [] };
  keys-hset = λ k v s. refl;
  keys-hdel = λ k s. refl;
  keys-rpush_pending = λ k s. refl;
  keys-blpop_pending = λ s. refl;
  keys-zadd = λ k d s. refl;
  keys-zrem = λ k s. refl;
  keys-rpush_dead = λ v s. refl;
}

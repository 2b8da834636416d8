-- ===== src/RateLimit/Windows.antt =====
-- How many requests the limiters let through.
use multi_agent_ai_analyst.Prelude.{
  All-mono, ap, ◌∙◌, ◌∙◌, ℕ, ◌+◌, ◌-◌, ◌*◌, ◌≤◌, ◌<◌, ◌≡◌, ◌⊎◌, ◌↔◌, refl, Bool, true, false, List,
  [], ◌∷◌, Option, none, some, All, if◌then◌else◌, leb, Bool-cases, inl, inr, arith, ok,
}
use multi_agent_ai_analyst.Prelude.Text.{text_eq_refl, text_eq→eq, Text, text_eq}
use multi_agent_ai_analyst.RateLimit.{
  Counters, second, check, counted_result, window_at, set_counter, redis_check, redis_result,
  failed_open, Reply, enforce,
}

-- A request: its key and its time.
abbrev pub Request : Type 0
Request = Text × ℕ

-- How many of some requests with a key are allowed, among requests with any keys.
unfoldable pub allowed_of : (limit window_seconds : ℕ) (key : Text) → List Request → Counters → ℕ
allowed_of limit window_seconds key [] counters = 0
allowed_of limit window_seconds key (request ∷ rest) counters =
    let answer = check request.1 request.0 limit window_seconds counters in
    (if text_eq request.0 key then (if answer.0.allowed then 1 else 0) else 0)
    + allowed_of limit window_seconds key rest answer.1

module _ (limit window_seconds : ℕ) (key : Text) where
  check-own :
      (now : ℕ) (k : Text) (counters : Counters)
      → text_eq k key ≡ true
      → let window = window_at now window_seconds (counters key) in
        let answer = check now k limit window_seconds counters in
        (answer.0.allowed ≡ leb (window.0 + 1) limit)
        × (answer.1 key ≡ some (window.0 + 1, window.1))
  unfolding check set_counter counted_result
  check-own now k counters same =
      rw (text_eq→eq k key same) (ground arith, ground (arith, text_eq_refl key))

  check-other :
      (now : ℕ) (k : Text) (counters : Counters)
      → text_eq k key ≡ false
      → (check now k limit window_seconds counters).1 key ≡ counters key
  unfolding check set_counter
  check-other now k counters other = rw other refl

  -- In a window that no request outlasts, what is left of the limit is allowed at most.
  within :
      (requests : List Request) (counters : Counters) (count expires : ℕ)
      → counters key ≡ some (count, expires)
      → All (λ r. r.1 < expires) requests
      → allowed_of limit window_seconds key requests counters ≤ limit - count
  unfolding allowed_of
  within [] counters count expires e h = omega arith
  within (request ∷ rest) counters count expires e h = elim (Bool-cases (text_eq request.0 key)) [
    | inl same ↦
        let own = check-own request.1 request.0 counters same in
        let open_ : window_at request.1 window_seconds (counters key) ≡ (count, expires) =
          rw e (unfold window_at in ground (arith, h.0)) in
        let later =
          within rest (check request.1 request.0 limit window_seconds counters).1 (count + 1)
            expires (own.1 ∙ ap (λ window. some (window.0 + 1, window.1)) open_) h.1 in
        rw same (rw own.0 (rw open_ (ground (arith, later))))
    | inr other ↦
        let stays = check-other request.1 request.0 counters other in
        rw other (
          omega (
            arith,
            within rest (check request.1 request.0 limit window_seconds counters).1 count expires
                (stays ∙ e) h.1,
          ))
  ]

  -- What is left to allow in a span of one window: what is left of the window that is open, and
  -- a whole limit more.
  room : Option (ℕ × ℕ) → ℕ
  room none = limit
  room (some (count, expires)) = (limit - count) + limit

  WithinSpan : ℕ → Request → Type 0
  WithinSpan from request = (from ≤ request.1) × (request.1 < from + window_seconds * second)

  module _ (from : ℕ) where
    -- A window that opens inside the span outlasts it.
    opening :
        (request : Request) (rest : List Request) (counters : Counters)
        → text_eq request.0 key ≡ true
        → window_at request.1 window_seconds (counters key)
          ≡ (0, request.1 + window_seconds * second)
        → All (WithinSpan from) (request ∷ rest)
        → allowed_of limit window_seconds key (request ∷ rest) counters ≤ limit
    unfolding allowed_of WithinSpan
    opening request rest counters same opens h =
        let own = check-own request.1 request.0 counters same in
        let later =
          within rest (check request.1 request.0 limit window_seconds counters).1 1
            (request.1 + window_seconds * second)
            (own.1 ∙ ap (λ window. some (window.0 + 1, window.1)) opens)
            (All-mono _ _ rest (λ r k. omega (arith, k.1, h.0.0)) h.1) in
        rw same (rw own.0 (rw opens (ground (arith, later))))

    spanning-own :
        (request : Request) (rest : List Request) (counters : Counters) (window : Option (ℕ × ℕ))
        → counters key ≡ window
        → text_eq request.0 key ≡ true
        → All (WithinSpan from) (request ∷ rest)
        → (let after = (check request.1 request.0 limit window_seconds counters).1 in
            allowed_of limit window_seconds key rest after ≤ room (after key))
        → allowed_of limit window_seconds key (request ∷ rest) counters ≤ room window
    unfolding allowed_of room
    spanning-own request rest counters none e same h later =
        opening request rest counters same (rw e (unfold window_at in refl)) h
    spanning-own request rest counters (some (count, expires)) e same h later =
        elim (Bool-cases (leb expires request.1)) [
          | inl over ↦ omega (
            arith,
            opening request rest counters same (rw e (unfold window_at in ground (arith, over))) h,
          )
          | inr open_ ↦
              let own = check-own request.1 request.0 counters same in
              let stands : window_at request.1 window_seconds (counters key) ≡ (count, expires) =
                rw e (unfold window_at in ground (arith, open_)) in
              let left =
                rw (own.1 ∙ ap (λ window. some (window.0 + 1, window.1)) stands) at later in
              rw same (rw own.0 (rw stands (ground (arith, left))))
        ]

    spanning :
        (requests : List Request) (counters : Counters)
        → All (WithinSpan from) requests
        → allowed_of limit window_seconds key requests counters ≤ room (counters key)
    unfolding allowed_of room
    spanning [] counters h = omega arith
    spanning (request ∷ rest) counters h = elim (Bool-cases (text_eq request.0 key)) [
      | inl same ↦
          spanning-own request rest counters (counters key) refl same h
            (spanning rest (check request.1 request.0 limit window_seconds counters).1 h.1)
      | inr other ↦
          let stays = check-other request.1 request.0 counters other in
          let later =
            spanning rest (check request.1 request.0 limit window_seconds counters).1 h.1 in
          rw other (omega (arith, rw stays at later))
    ]

-- The limiter's answer is an exception.
abbrev pub IsDown : Reply → Bool → Type 0
IsDown none expires = Unit
IsDown (some (count, some ttl)) expires = ⊥
IsDown (some (count, none)) expires = expires ≡ false

-- The limiter counts the request, within the limit.
abbrev pub Counts : (limit : ℕ) → Reply → Bool → Type 0
Counts limit none expires = ⊥
Counts limit (some (count, some ttl)) expires = count ≤ limit
Counts limit (some (count, none)) expires = (expires ≡ true) × (count ≤ limit)

-- The limit, and once more if something is counted for the key before.
abbrev pub allowance : (limit : ℕ) → Option (ℕ × ℕ) → ℕ
allowance limit none = limit
allowance limit (some window) = limit + limit

room-allowance :
    (limit window_seconds : ℕ) (key : Text) (window : Option (ℕ × ℕ))
    → room limit window_seconds key window ≤ allowance limit window
unfolding room
room-allowance limit window_seconds key none = omega arith
room-allowance limit window_seconds key (some window) = omega arith

-- Of any requests that come within one window's length, at most the limit with one key are allowed if
-- nothing is counted for the key before, and at most twice the limit if something is, whatever
-- requests with other keys come between.
pub check-allowed :
    (limit window_seconds from : ℕ) (key : Text) (requests : List Request) (counters : Counters)
    → All (λ r. (from ≤ r.1) × (r.1 < from + window_seconds * second)) requests
    → allowed_of limit window_seconds key requests counters ≤ allowance limit (counters key)
unfolding WithinSpan
check-allowed limit window_seconds from key requests counters h = omega (
  arith,
  spanning limit window_seconds key from requests counters h,
  room-allowance limit window_seconds key (counters key),
)

-- When the distributed limiter guards an endpoint, a request passes exactly if limits are off, or the
-- limiter counts it within the limit, or the limiter is out of reach and the endpoint does not
-- insist on it.
pub enforce_iff :
    (enabled reject : Bool) (limit window_seconds : ℕ) (reply : Reply) (expires : Bool)
    → (enforce enabled reject (redis_check limit window_seconds reply expires) ≡ ok tt) ↔ (
        (enabled ≡ false)
        ⊎ (Counts limit reply expires ⊎ ((reject ≡ false) × IsDown reply expires)))
unfolding enforce redis_check redis_result failed_open
enforce_iff enabled reject limit window_seconds none expires = ground arith
enforce_iff enabled reject limit window_seconds (some (count, some ttl)) expires = ground arith
enforce_iff enabled reject limit window_seconds (some (count, none)) expires = ground arith

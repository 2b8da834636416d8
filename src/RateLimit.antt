-- ===== src/RateLimit.antt =====
-- services/rate_limit.py: fixed-window limits on requests. Times are in microseconds.
pub mod Windows
mod Tests
use multi_agent_ai_analyst.Prelude.{
  ℕ, ◌+◌, ◌-◌, ◌*◌, ◌/◌, max, Bool, true, false, not, ◌&&◌, Option, none, some, leb, ltb,
  if◌then◌else◌, Outcome, ok, raise,
}
use multi_agent_ai_analyst.Prelude.Text.{Text, text_eq}

pub record RateLimitResult : Type 0 where
  pub allowed : Bool
  pub retry_after_seconds : ℕ
  pub backend_available : Bool

-- `_counters`: the count and the end of a key's window.
abbrev pub Counters : Type 0
Counters = Text → Option (ℕ × ℕ)

abbrev pub second : ℕ
second = 1000000

-- The window that a check counts in: the key's, or a new one if it has none or that is over.
unfoldable pub window_at : (now window_seconds : ℕ) → Option (ℕ × ℕ) → ℕ × ℕ
window_at now window_seconds none = (0, now + window_seconds * second)
window_at now window_seconds (some (count, expires_at)) =
    if leb expires_at now then (0, now + window_seconds * second) else (count, expires_at)

unfoldable pub set_counter : Text → ℕ × ℕ → Counters → Counters
set_counter key window counters other = if text_eq key other then some window else counters other

counted_result : (limit now count expires_at : ℕ) → RateLimitResult
counted_result limit now count expires_at =
    if ltb limit count
    then record {
      allowed = false;
      retry_after_seconds = max 1 ((expires_at - now) / second);
      backend_available = true;
    }
    else record { allowed = true; retry_after_seconds = 0; backend_available = true }

-- `InMemoryRateLimiter.check`
unfoldable pub check :
    (now : ℕ) (key : Text) (limit window_seconds : ℕ) → Counters → RateLimitResult × Counters
unfolding window_at set_counter counted_result
check now key limit window_seconds counters =
    let (count, expires_at) = window_at now window_seconds (counters key) in
    (
      counted_result limit now (count + 1) expires_at,
      set_counter key (count + 1, expires_at) counters,
    )

-- `InMemoryRateLimiter.reset`
unfoldable pub reset : Counters → Counters
reset counters key = none

-- What Redis answers to `INCR` and `TTL`: the count, and the seconds left of the key, `none` for a
-- negative answer. `none` of the whole is an exception.
abbrev pub Reply : Type 0
Reply = Option (ℕ × Option ℕ)

failed_open : RateLimitResult
failed_open = record { allowed = true; retry_after_seconds = 0; backend_available = false }

redis_result : (limit count ttl : ℕ) → RateLimitResult
redis_result limit count ttl =
    if ltb limit count
    then record { allowed = false; retry_after_seconds = max 1 ttl; backend_available = true }
    else record { allowed = true; retry_after_seconds = 0; backend_available = true }

-- `RedisRateLimiter.check`; `expires` is whether the `EXPIRE` of a key without an end succeeds.
unfoldable pub redis_check : (limit window_seconds : ℕ) → Reply → (expires : Bool) → RateLimitResult
unfolding failed_open redis_result
redis_check limit window_seconds none expires = failed_open
redis_check limit window_seconds (some (count, some ttl)) expires = redis_result limit count ttl
redis_check limit window_seconds (some (count, none)) expires =
    if expires then redis_result limit count window_seconds else failed_open

-- The `HTTPException` of `enforce`: 503, or 429 with its `Retry-After`.
pub data Refusal : Type 0 where
  service_unavailable : Refusal
  too_many_requests : (retry_after : ℕ) → Refusal

-- `enforce`, given what the limiter's check answers. `reject` is `unavailable == "reject"`.
unfoldable pub enforce :
    (rate_limit_enabled reject : Bool) → RateLimitResult → Outcome Refusal (Unit {0})
enforce rate_limit_enabled reject result =
    if not rate_limit_enabled
    then ok tt
    else if not result.backend_available && reject
    then raise service_unavailable
    else if result.allowed
    then ok tt
    else raise (too_many_requests result.retry_after_seconds)

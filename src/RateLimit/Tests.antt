-- ===== src/RateLimit/Tests.antt =====
-- The limits on concrete requests.
use multi_agent_ai_analyst.Prelude.{
  ◌≤◌, ◌≡◌, ◌↔◌, ◌⊎◌, refl, true, false, List, [], ◌∷◌, none, some, ok, arith,
}
use multi_agent_ai_analyst.Prelude.Text.{codes, text_eq}
use multi_agent_ai_analyst.RateLimit.{Counters, check, window_at, set_counter, redis_check, enforce}
use multi_agent_ai_analyst.RateLimit.Windows.{
  Request, allowed_of, allowance, IsDown, Counts, check-allowed, enforce_iff,
}

abbrev nothing_counted : Counters
nothing_counted key = none

abbrev attempts : List Request
attempts = (codes "login", 0) ∷ (codes "signup", 1) ∷ (codes "login", 2) ∷ (codes "login", 3) ∷ []

-- Two of three attempts at a limit of two.
two_allowed : allowed_of 2 60 (codes "login") attempts nothing_counted ≡ 2
unfolding allowed_of check window_at set_counter text_eq
two_allowed = refl

check-allowed_example : allowed_of 2 60 (codes "login") attempts nothing_counted ≤ allowance 2 none
check-allowed_example = check-allowed 2 60 0 (codes "login") attempts nothing_counted (
  (omega arith, omega arith),
  ((omega arith, omega arith), ((omega arith, omega arith), ((omega arith, omega arith), tt))),
)

enforce_iff_example : (enforce true true (redis_check 5 60 (some (3, some 10)) true) ≡ ok tt) ↔ (
    (true ≡ false)
    ⊎ (Counts 5 (some (3, some 10)) true ⊎ ((true ≡ false) × IsDown (some (3, some 10)) true)))
enforce_iff_example = enforce_iff true true 5 60 (some (3, some 10)) true

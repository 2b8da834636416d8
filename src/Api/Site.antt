-- ===== src/Api/Site.antt =====
-- What the routes of api/routes/runs.py work with: the tables, the queue, the limiter, the settings and
-- the state of them all; and services/rate_limit.py where it looks at a request.
use multi_agent_ai_analyst.Prelude.{
  ℕ, Bool, true, List, [], ◌∷◌, ◌++◌, Option, none, some, Outcome, ok, raise, ◌==◌, if◌then◌else◌,
}
use multi_agent_ai_analyst.Prelude.Text.{Text, codes, strip}
use multi_agent_ai_analyst.RunStore.Rows.{Ids, Tables, Db}
use multi_agent_ai_analyst.RateLimit.{
  RateLimitResult, Refusal, service_unavailable, too_many_requests, enforce,
}
use multi_agent_ai_analyst.Worker.Environment.{JobQueue}

-- The limiter, either of the two.
pub record Limiter : Type 1 where
  pub State : Type 0
  pub check : (key : Text) (limit window_seconds : ℕ) → State → RateLimitResult × State

pub record Settings : Type 0 where
  pub rate_limit_enabled : Bool
  pub rate_limit_runs_per_hour : ℕ
  pub daily_run_quota_per_organization : ℕ

-- `sha256` is the hex digest, and `dumps` the JSON text of an event's data.
pub record Site : Type 1 where
  pub tables : Tables
  pub queue : JobQueue
  pub limiter : Limiter
  pub ids : Ids
  pub casefold : Text → Text
  pub sha256 : Text → Text
  pub dumps : List (Text × Text) → Text
  pub settings : Settings

pub record World (site : Site) : Type 0 where
  pub db : Db site.tables
  pub queue : site.queue.State
  pub limiter : site.limiter.State

-- An `HTTPException`: its status, and the seconds of its `Retry-After`.
pub record HttpError : Type 0 where
  pub status_code : ℕ
  pub retry_after : Option ℕ

abbrev pub http_error : ℕ → HttpError
http_error status_code = record { status_code = status_code; retry_after = none }

abbrev pub refusal_error : Refusal → HttpError
refusal_error service_unavailable = http_error 503
refusal_error (too_many_requests seconds) = record { status_code = 429; retry_after = some seconds }

abbrev pub limited : Outcome Refusal (Unit {0}) → Outcome HttpError (Unit {0})
limited (ok u) = ok u
limited (raise refusal) = raise (refusal_error refusal)

-- `text.split(",")[0]`
unfoldable pub before_comma : Text → Text
before_comma [] = []
before_comma (c ∷ s) = let rest = before_comma s in if c == b',' then [] else c ∷ rest

-- `if first: return first`
abbrev pub first_or : Text → Text → Text
first_or fallback [] = fallback
first_or fallback (c ∷ s) = c ∷ s

-- `request.client.host if request.client else "unknown"`
abbrev pub host_of : Option Text → Text
host_of none = codes "unknown"
host_of (some host) = host

abbrev pub forwarded_host : (client : Option Text) (forwarded : Option Text) → Text
forwarded_host client none = host_of client
forwarded_host client (some header) = first_or (host_of client) (strip (before_comma header))

unfoldable pub client_identifier :
    (trust_forwarded_headers : Bool) (forwarded client : Option Text) → Text
unfolding before_comma strip
client_identifier trust_forwarded_headers forwarded client =
    if trust_forwarded_headers then forwarded_host client forwarded else host_of client

module _ (site : Site) where
  unfoldable pub rate_limit_key : (bucket subject_kind subject : Text) → Text
  unfolding strip
  rate_limit_key bucket subject_kind subject =
      bucket
      ++ (codes ":" ++ (subject_kind ++ (codes ":" ++ site.sha256 (site.casefold (strip subject)))))

  -- `enforce`, with the check of the limiter.
  unfoldable pub enforced :
      (key : Text) (limit window_seconds : ℕ) (must_reject : Bool)
      → site.limiter.State
      → Outcome HttpError (Unit {0}) × site.limiter.State
  unfolding enforce
  enforced key limit window_seconds must_reject s =
      let (result, s') = site.limiter.check key limit window_seconds s in
      if site.settings.rate_limit_enabled
      then (limited (enforce true must_reject result), s')
      else (ok tt, s)

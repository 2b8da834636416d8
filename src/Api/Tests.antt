-- ===== src/Api/Tests.antt =====
-- The routes of runs on concrete tables, with the queue in memory and a limiter that counts.
use multi_agent_ai_analyst.Database.Queries.{order_by}
use multi_agent_ai_analyst.Prelude.{
  filter, ℕ, zero, suc, ◌+◌, ◌≡◌, refl, true, List, [], ◌∷◌, length, All, none, some, raise, arith,
  leb,
}
use multi_agent_ai_analyst.Prelude.Text.{Text, codes, decimal}
use multi_agent_ai_analyst.Database.{plain_table}
use multi_agent_ai_analyst.Agents.State.{other_error}
use multi_agent_ai_analyst.RunStore
use multi_agent_ai_analyst.RunStore.Rows.{
  Run, RunEvent, RunCitation, Feedback, DailyUsage, queued, Tables, Db,
}
use multi_agent_ai_analyst.RunStore.Changes.{Change, RespectsOwner, creation, event, failure}
use multi_agent_ai_analyst.Worker.Environment.{JobQueue}
use multi_agent_ai_analyst.Auth.Rows.{Principal}
use multi_agent_ai_analyst.Api.Site.{Limiter, Site, World, client_identifier}
use multi_agent_ai_analyst.Api.Cursor.{parse_cursor}
use multi_agent_ai_analyst.Api.Runs.{Draws, create_run, event_stream, drained}
use multi_agent_ai_analyst.Api.Stream.{after, Ends, event_stream-Ends}
use multi_agent_ai_analyst.Api.Creation.{Outcomes, create_run-Outcomes}

abbrev tables : Tables
tables = record {
  runs = plain_table Run;
  events = plain_table RunEvent;
  citations = plain_table RunCitation;
  feedback = plain_table Feedback;
  usage = plain_table DailyUsage;
}

-- A queue that is out of reach.
abbrev queue : JobQueue
queue = record {
  State = Unit {0};
  enqueue = λ id type payload s. (raise other_error, s);
  claim = λ s. (raise other_error, s);
  ack = λ job s. (raise other_error, s);
  retry = λ job s. (raise other_error, s);
  recover_expired = λ s. (raise other_error, s);
}

abbrev limiter : Limiter
limiter = record {
  State = ℕ;
  check = λ key limit window_seconds n. (
    (record { allowed = leb (n + 1) limit; retry_after_seconds = 60; backend_available = true }),
    n + 1,
  );
}

abbrev site : Site
site = record {
  tables = tables;
  queue = queue;
  limiter = limiter;
  ids = record { print = decimal; parse = λ t. none };
  casefold = λ t. t;
  sha256 = λ t. t;
  dumps = λ payload. codes "{}";
  settings = record {
    rate_limit_enabled = true;
    rate_limit_runs_per_hour = 20;
    daily_run_quota_per_organization = 100;
  };
}

abbrev empty : Db tables
empty = record { runs = []; events = []; citations = []; feedback = []; usage = [] }

abbrev w : World site
w = record { db = empty; queue = tt; limiter = 0 }

abbrev principal : Principal
principal = record {
  user_id = 1;
  organization_id = 7;
  role = codes "admin";
  email = codes "ada@x.org";
}

abbrev draws : Draws
draws = record { now = 10; today = 3; run_id = 4; job_id = 5 }

client_identifier_test :
    client_identifier true (some (codes " 1.2.3.4 , 5.6.7.8")) (some (codes "10.0.0.1"))
    ≡ codes "1.2.3.4"
unfolding client_identifier
client_identifier_test = refl

parse_cursor_test : parse_cursor (some (codes " +1_0 ")) ≡ 10
unfolding parse_cursor
parse_cursor_test = refl

parse_cursor_rejects : parse_cursor (some (codes "1__0")) ≡ 0
unfolding parse_cursor
parse_cursor_rejects = refl

parse_cursor_own : parse_cursor (some (decimal 207)) ≡ 207
unfolding parse_cursor decimal
parse_cursor_own = refl

create_run-Outcomes_example :
    Outcomes site draws principal
      (codes " why ")
      11
      w
      (create_run site draws principal (codes " why ") w)
create_run-Outcomes_example =
    create_run-Outcomes site draws principal (codes " why ") 11 w (omega arith)

abbrev run : Run
run = record {
  id = 4;
  organization_id = 7;
  created_by_user_id = none;
  question = codes "why";
  status = queued;
  answer = none;
  error = none;
  attempt_count = 0;
  started_at = none;
  completed_at = none;
  created_at = 10;
  updated_at = 10;
}

-- The run starts before the second read, and fails before the third.
abbrev steps : ℕ → List Change
steps zero = creation 10 4 7 none (codes "why") ∷ []
steps (suc zero) = event run (codes "routing") [] ∷ failure 12 run (codes "no") ∷ []
steps (suc (suc i)) = []

steps-RespectsOwner : (i : ℕ) → All (RespectsOwner (λ _. 7)) (steps i)
steps-RespectsOwner zero = (refl, tt)
steps-RespectsOwner (suc zero) = (refl, (refl, tt))
steps-RespectsOwner (suc (suc i)) = tt

event_stream-Ends_example :
    Ends site
      (λ _. 7)
      4
      10
      1
      (after site (λ _. 7) 4 steps empty)
      (event_stream site 10 7 4 1 (after site (λ _. 7) 4 steps empty))
unfolding filter
event_stream-Ends_example =
    event_stream-Ends site (λ _. 7) 4 9 1 steps empty steps-RespectsOwner (tt, tt)

-- The run fails between the two reads of a round: the stream ends without the frame of its failure.
abbrev failing : ℕ → List Change
failing zero = failure 12 run (codes "no") ∷ []
failing (suc i) = []

abbrev started_db : Db tables
started_db = record empty {
  runs = run ∷ [];
  events =
      (record {
        run_id = 4;
        organization_id = 7;
        sequence = 1;
        event_type = codes "run_started";
        payload = [];
      })
      ∷ [];
}

event_stream_misses_failure :
    event_stream site 10 7 4 1 (after site (λ _. 7) 4 failing started_db) ≡ ([], drained)
unfolding event_stream after filter order_by
event_stream_misses_failure = refl

failure_is_stored :
    length (RunStore.events_of tables 4 (after site (λ _. 7) 4 failing started_db 1)) ≡ 2
unfolding after filter
failure_is_stored = refl

abbrev first_event : RunEvent
first_event = record {
  run_id = 4;
  organization_id = 7;
  sequence = 1;
  event_type = codes "run_started";
  payload = [];
}

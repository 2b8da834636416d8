-- ===== src/Worker/Tests.antt =====
-- The worker on a concrete database, queue and services.
use multi_agent_ai_analyst.Prelude.{
  filter, ℕ, ◌+◌, ◌≡◌, refl, true, false, [], ◌∷◌, Option, none, some, ok, raise,
}
use multi_agent_ai_analyst.Prelude.Text.{text_eq, Text, codes}
use multi_agent_ai_analyst.Database.{plain_table}
use multi_agent_ai_analyst.Agents.State.{Error, provider_error, other_error}
use multi_agent_ai_analyst.Queue.Jobs.{Job, execute_run}
use multi_agent_ai_analyst.Queue.InMemory
use multi_agent_ai_analyst.RunStore.Rows.{
  Ids, Run, RunEvent, RunCitation, Feedback, DailyUsage, RunStatus, Tables,
}
use multi_agent_ai_analyst.DocumentStore.{Document}
use multi_agent_ai_analyst.Worker.Environment.{Services, Site, World, rejected}
use multi_agent_ai_analyst.Worker.Queues.{memory_queue}
use multi_agent_ai_analyst.Worker.Rows.{rows_of}
use multi_agent_ai_analyst.Worker.Terminal.{run_forever-Stays}
use multi_agent_ai_analyst.Worker.Handling.{IsHandled, handle_settles}
use multi_agent_ai_analyst.Worker.{handle, run_forever}

abbrev tables : Tables
tables = record {
  runs = plain_table Run;
  events = plain_table RunEvent;
  citations = plain_table RunCitation;
  feedback = plain_table Feedback;
  usage = plain_table DailyUsage;
}

-- Services whose client raises `error` when it is built. Their state counts the clock's readings.
abbrev failing : Error → Services ℕ (Unit {0})
failing error = record {
  utc_now = λ s. (s, s + 1);
  uuid4 = λ s. (s, s + 1);
  monotonic = λ s. (s, s + 1);
  build = λ s. (raise error, s);
  generate = λ prompt s. (ok [], s);
  search_documents = λ tenant question limit s. (ok [], s);
  search_web = λ question limit s. (ok [], s);
  execute_sql = λ sql s. (ok tt, s);
  recall = λ question limit tenant s. (ok [], s);
  remember = λ tenant question answer s. (ok tt, s);
  get_object = λ key s. (ok [], s);
  extract = λ filename raw. rejected;
  ingest_text = λ tenant document filename content s. (ok 0, s);
  lower = λ t. t;
  loads = λ t. none;
  dump = λ r. [];
}

-- An id is printed as one digit of its own.
abbrev ids : Ids
ids = record { print = λ i. i ∷ []; parse = λ t. parse t }
  where
    parse : Text → Option ℕ
    parse [] = none
    parse (c ∷ t) = some c

abbrev site : Error → Site ℕ (Unit {0})
site error = record {
  tables = tables;
  documents = plain_table Document;
  queue = memory_queue 3;
  services = failing error;
  settings = record {
    max_agent_steps = 8;
    max_agent_revisions = 1;
    enable_web_search = false;
    has_tavily_api_key = false;
    enable_sql_agent = false;
    max_tool_calls = 5;
    run_timeout_seconds = 60;
    job_visibility_timeout_seconds = 900;
  };
  ids = ids;
}

abbrev run : RunStatus → Run
run status = record {
  id = 3;
  organization_id = 8;
  created_by_user_id = none;
  question = codes "why";
  status = status;
  answer = none;
  error = none;
  attempt_count = 0;
  started_at = none;
  completed_at = none;
  created_at = 10;
  updated_at = 10;
}

abbrev job : Job
job = record { id = 7; type = execute_run; payload = (codes "run_id", 3 ∷ []) ∷ []; attempts = 0 }

abbrev world : (error : Error) → RunStatus → World (site error)
world error status = record {
  services = 20;
  db = record { runs = run status ∷ []; events = []; citations = []; feedback = []; usage = [] };
  documents = [];
  queue = record { pending = job ∷ []; dead = [] };
}

run_forever-Stays_example :
    rows_of tables 3 (run_forever (site other_error) 2 (world other_error RunStatus.completed)).1.db
    ≡ run RunStatus.completed ∷ []
unfolding filter
run_forever-Stays_example =
    run_forever-Stays (site other_error) 3 (run RunStatus.completed) refl 2
      (world other_error RunStatus.completed) refl

handle_settles_example :
    ((handle (site (provider_error true)) job (world (provider_error true) RunStatus.queued)).0
      ≡ ok tt)
    × IsHandled
        (site (provider_error true))
        3
        job
        (handle (site (provider_error true)) job (world (provider_error true) RunStatus.queued)).1
unfolding filter text_eq
handle_settles_example =
    handle_settles (site (provider_error true)) 3 job (3 ∷ []) refl refl refl
      (record { acks = λ job q. refl; retries = λ job q. ((InMemory.retry 3 job q).0, refl) })
      (world (provider_error true) RunStatus.queued) tt

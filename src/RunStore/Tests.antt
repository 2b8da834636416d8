-- ===== src/RunStore/Tests.antt =====
-- The run store on a concrete database, whose tables are lists of rows.
use multi_agent_ai_analyst.Database.Queries.Newest.{IsNewestPage}
use multi_agent_ai_analyst.Prelude.{
  ◌==◌, count, ◌-◌, min, map, filter, ℕ, ◌≡◌, refl, true, false, List, [], ◌∷◌, ◌++◌, none, some,
  arith, length,
}
use multi_agent_ai_analyst.Prelude.Text.{Text, codes, decimal}
use multi_agent_ai_analyst.Agents.State.{Citation, web}
use multi_agent_ai_analyst.Database.{plain_table}
use multi_agent_ai_analyst.Database.Queries.{order_by, order_by_desc, max_of}
use multi_agent_ai_analyst.RunStore.Rows.{
  Ids, Run, RunEvent, RunCitation, Feedback, DailyUsage, queued, Tables, Db,
}
use multi_agent_ai_analyst.RunStore.{
  append_event, create_run, list_runs, events_since, events_of, citations_for, set_run,
  add_citations, mark_completed, record_feedback, feedback_of, consume_daily_quota,
  ensure_usage_row, usage_of, citation_row,
}
use multi_agent_ai_analyst.RunStore.Changes.{
  Change, creation, start, completion, event, changes, change,
}
use multi_agent_ai_analyst.RunStore.Events.{IsHistory, events_since_resumes, events_since_tenant}
use multi_agent_ai_analyst.RunStore.Quota.{granted, granted-min, is_for}
use multi_agent_ai_analyst.RunStore.Verdicts.{Rating, said, latest, record_all, record_all-latest}
use multi_agent_ai_analyst.RunStore.Reads.{
  list_runs-IsNewestPage, numbered, mark_completed-citations_for,
}

abbrev tables : Tables
tables = record {
  runs = plain_table Run;
  events = plain_table RunEvent;
  citations = plain_table RunCitation;
  feedback = plain_table Feedback;
  usage = plain_table DailyUsage;
}

abbrev ids : Ids
ids = record { print = decimal; parse = λ t. none }

abbrev empty : Db tables
empty = record { runs = []; events = []; citations = []; feedback = []; usage = [] }

abbrev run : Run
run = record {
  id = 3;
  organization_id = 8;
  created_by_user_id = some 5;
  question = codes "why";
  status = queued;
  answer = none;
  error = none;
  attempt_count = 0;
  started_at = none;
  completed_at = none;
  created_at = 10;
  updated_at = 10;
}

abbrev owner : ℕ → ℕ
owner id = 8

abbrev source : Citation
source = record {
  id = codes "w1";
  kind = web;
  title = codes "t";
  excerpt = codes "e";
  url = some (codes "u");
  document_id = none;
  chunk_index = none;
}

abbrev beginning : List Change
beginning = creation 10 3 8 (some 5) (codes "why") ∷ start 11 run ∷ []

abbrev ending : List Change
ending = event run (codes "step") [] ∷ completion 12 run (codes "because") (source ∷ []) ∷ []

program : Unit {0}
unfolding filter max_of order_by order_by_desc create_run append_event set_run mark_completed
    add_citations citation_row changes change events_since list_runs citations_for record_feedback
    consume_daily_quota ensure_usage_row usage_of feedback_of granted record_all latest numbered
program = tt

abbrev created : Db tables
unfolding program
created = (create_run tables ids 10 3 8 (some 5) (codes "why") empty).1

abbrev finished : Db tables
unfolding program
finished = changes tables ids ending created

created-IsHistory : IsHistory owner 3 (events_of tables 3 created)
unfolding program
created-IsHistory = ((refl, tt), ((refl, refl), tt))

-- The events of the run are numbered from one: run_started, step and completed.
replayed :
    map {B = ℕ × Text} (λ e. (e.sequence, e.event_type)) (events_since tables 8 3 1 finished)
    ≡ (2, codes "step") ∷ (3, codes "completed") ∷ []
unfolding program
replayed = refl

events_since_resumes_example :
    events_of tables 3 created
      ++ events_since tables 8 3
          (length (events_of tables 3 created))
          (changes tables ids ending created)
    ≡ events_of tables 3 (changes tables ids ending created)
events_since_resumes_example =
    events_since_resumes tables ids owner 3 ending created (refl, (refl, tt)) created-IsHistory

events_since_tenant_example : events_since tables 9 3 0 (changes tables ids ending created) ≡ []
events_since_tenant_example =
    events_since_tenant tables ids owner 3 9 0 ending created (refl, (refl, tt)) created-IsHistory
      (omega arith)

abbrev requests : List (ℕ × ℕ)
requests = (8, 1) ∷ (8, 1) ∷ (9, 1) ∷ (8, 1) ∷ (8, 2) ∷ []

-- Two of the three requests of organization 8 on the first day are granted at a limit of two.
two_granted : granted tables 8 1 2 requests empty ≡ 2
unfolding program
two_granted = refl

granted-min_example :
    granted tables 8 1 2 requests empty ≡ min (2 - 0) (count (is_for 8 1) requests)
unfolding program
granted-min_example = granted-min tables 8 1 2 0 requests empty refl

abbrev ratings : List Rating
ratings =
    record { run = run; user_id = some 5; approved = true; comment = none }
    ∷ record { run = run; user_id = some 6; approved = true; comment = none }
    ∷ record { run = run; user_id = some 5; approved = false; comment = some (codes "wrong") }
    ∷ []

changed_mind :
    map said (feedback_of tables 3 (some 5) (record_all tables ratings empty))
    ≡ (false, some (codes "wrong")) ∷ []
unfolding program
changed_mind = refl

record_all-latest_example :
    map said (feedback_of tables 3 (some 5) (record_all tables ratings empty))
    ≡ latest 3 (some 5) ratings (map said (feedback_of tables 3 (some 5) empty))
unfolding program
record_all-latest_example = record_all-latest tables 3 (some 5) ratings empty (omega arith)

-- Three runs of one organization, the second of them the newest, and one of another.
abbrev crowded : Db tables
unfolding program
crowded =
    let second = (create_run tables ids 13 4 8 none (codes "when") created).1 in
    let third = (create_run tables ids 12 5 8 none (codes "who") second).1 in
    (create_run tables ids 14 6 9 none (codes "where") third).1

newest_runs : map {B = ℕ} (λ r. r.id) (list_runs tables 8 2 crowded) ≡ 4 ∷ 5 ∷ []
unfolding program
newest_runs = refl

list_runs-IsNewestPage_example :
    IsNewestPage
      (λ r. r.created_at)
      2
      (filter (λ r. r.organization_id == 8) crowded.runs)
      (list_runs tables 8 2 crowded)
list_runs-IsNewestPage_example = list_runs-IsNewestPage tables 8 2 crowded

mark_completed-citations_for_example :
    citations_for tables 3
      (mark_completed tables ids 12 run (codes "because") (source ∷ []) created)
    ≡ numbered tables ids run 0 (source ∷ [])
unfolding program created
mark_completed-citations_for_example =
    mark_completed-citations_for tables ids run 12 (codes "because") (source ∷ []) created refl

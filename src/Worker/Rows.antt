-- ===== src/Worker/Rows.antt =====
-- Which rows of runs the parts of a job leave alone.
use multi_agent_ai_analyst.Agents.Graph.{Event, Finish, finished, recursion_limit, run_workflow}
use multi_agent_ai_analyst.Prelude.{
  All-mono, if◌then◌else◌, ◌+◌, ℕ, ◌≡◌, refl, Bool, true, false, List, [], ◌∷◌, none, some, filter,
  ◌==◌, arith,
}
use multi_agent_ai_analyst.Prelude.Text.{Text}
use multi_agent_ai_analyst.Database.{change_where}
use multi_agent_ai_analyst.Database.Queries.{filter-map, All-filter, change_where-none}
use multi_agent_ai_analyst.Agents.State.{Citation}
use multi_agent_ai_analyst.Agents.Action.{Action}
use multi_agent_ai_analyst.Agents.Action.Preserves.{Preserves}
use multi_agent_ai_analyst.Agents.Graph.Effects.{Each, AllPreserve, run_workflow-Preserves}
use multi_agent_ai_analyst.RunStore.Rows.{failed, completed, running, Ids, Run, Tables, Db}
use multi_agent_ai_analyst.RunStore.{
  citation_row, set_run, append_event, add_citations, mark_running, mark_completed, mark_failed,
}
use multi_agent_ai_analyst.Worker.Environment.{Site, World}
use multi_agent_ai_analyst.Worker.Jobs.{
  answer_of, on_services, on_queue, read, on_db, on_documents, emit, dependencies, answer,
}

-- The rows with a run's id.
abbrev pub rows_of : (t : Tables) → ℕ → Db t → List Run
rows_of t id db = filter (λ r. r.id == id) (t.runs.rows db.runs)

pub add_citations_runs :
    (t : Tables) (ids : Ids) (run : Run) (position : ℕ) (citations : List Citation) (db : Db t)
    → (add_citations t ids run position citations db).runs ≡ db.runs
unfolding add_citations
add_citations_runs t ids run position [] db = refl
add_citations_runs t ids run position (citation ∷ rest) db =
    add_citations_runs t ids run (position + 1) rest (record db {
      citations = t.citations.insert (citation_row ids run position citation) db.citations;
    })

module _ (t : Tables) (id : ℕ) where
  -- An update keeps the ids, and changes the rows with the id that it names.
  pub rows_of-set_run :
      (now k : ℕ) (f : Run → Run) (db : Db t)
      → ((r : Run) → (f r).id ≡ r.id)
      → rows_of t id (set_run t now k f db)
        ≡ change_where (λ r. r.id == k) (λ r. record (f r) { updated_at = now }) (rows_of t id db)
  unfolding set_run
  rows_of-set_run now k f db same =
      rw (t.runs.rows-update (λ r. r.id == k) (λ r. record (f r) { updated_at = now }) db.runs) (
        filter-map (λ r. r.id == id)
          (λ r. if r.id == k then record (f r) { updated_at = now } else r)
          (λ r. ground (arith, same r)) (t.runs.rows db.runs))

  pub rows_of-set_run_other :
      (now k : ℕ) (f : Run → Run) (db : Db t)
      → ((r : Run) → (f r).id ≡ r.id)
      → (k == id) ≡ false
      → rows_of t id (set_run t now k f db) ≡ rows_of t id db
  rows_of-set_run_other now k f db same other = rw (rows_of-set_run now k f db same) (
      change_where-none (λ r. r.id == k) (λ r. record (f r) { updated_at = now }) (rows_of t id db)
        (All-mono _ _ (rows_of t id db) (λ r here. ground (arith, here, other))
          (All-filter (λ r. r.id == id) (t.runs.rows db.runs))))

  module _ (run : Run) (other : (run.id == id) ≡ false) where
    pub mark_running-other :
        (now : ℕ) (db : Db t) → rows_of t id (mark_running t now run db) ≡ rows_of t id db
    unfolding mark_running
    mark_running-other now db =
        rows_of-set_run_other now run.id
          (λ r. record r {
            status = running;
            started_at = some now;
            attempt_count = r.attempt_count + 1;
          })
          db (λ r. refl) other

    pub mark_failed-other :
        (now : ℕ) (message : Text) (db : Db t)
        → rows_of t id (mark_failed t now run message db) ≡ rows_of t id db
    unfolding mark_failed append_event
    mark_failed-other now message db =
        rows_of-set_run_other now run.id
          (λ r. record r { status = failed; error = some message; completed_at = some now }) db
          (λ r. refl) other

    pub mark_completed-other :
        (ids : Ids) (now : ℕ) (answer : Text) (citations : List Citation) (db : Db t)
        → rows_of t id (mark_completed t ids now run answer citations db) ≡ rows_of t id db
    unfolding mark_completed append_event
    mark_completed-other ids now answer citations db =
        let f = λ (r : Run). record r {
          status = completed;
          answer = some answer;
          completed_at = some now;
        } in
        rw (add_citations_runs t ids run 0 citations (set_run t now run.id f db))
          (rows_of-set_run_other now run.id f db (λ r. refl) other)

module _ {S R : Type 0} (site : Site S R) (id : ℕ) (rows : List Run) where
  -- The rows of runs with the id are these.
  abbrev pub Has : World site → Type 0
  Has w = rows_of site.tables id w.db ≡ rows

  module _ {A : Type 0} where
    pub on_services-Preserves : (m : Action S A) → Preserves Has (on_services site m)
    unfolding on_services
    on_services-Preserves m = record { at = λ w h. h }

    pub on_queue-Preserves : (m : Action site.queue.State A) → Preserves Has (on_queue site m)
    unfolding on_queue
    on_queue-Preserves m = record { at = λ w h. h }

    pub read-Preserves : (f : S → A × S) → Preserves Has (read site f)
    unfolding read
    read-Preserves f = record { at = λ w h. h }

  pub on_documents-Preserves :
      (f : site.documents.State → site.documents.State) → Preserves Has (on_documents site f)
  unfolding on_documents
  on_documents-Preserves f = record { at = λ w h. h }

  emit-Preserves : (run : Run) (event : Event) → Preserves Has (emit site run event)
  unfolding emit on_db append_event
  emit-Preserves run event = record { at = λ w h. h }

  execute_sql-Preserves :
      (enabled : Bool) (execute : Text → Action S R)
      → Each
          (λ (run : Text → Action (World site) R). (sql : Text) → Preserves Has (run sql))
          (if enabled then some (λ sql. on_services site (execute sql)) else none)
  execute_sql-Preserves true execute = λ sql. on_services-Preserves (execute sql)
  execute_sql-Preserves false execute = tt

  dependencies-AllPreserve : (run : Run) → AllPreserve Has (dependencies site run)
  unfolding dependencies
  dependencies-AllPreserve run = record {
    generate_text = λ prompt. on_services-Preserves _;
    search_documents = λ tenant question limit. on_services-Preserves _;
    search_web = λ question limit. on_services-Preserves _;
    execute_sql = execute_sql-Preserves site.settings.enable_sql_agent site.services.execute_sql;
    recall_memory = λ question limit. on_services-Preserves _;
    emit = λ event. emit-Preserves run event;
    clock = λ w h. h;
  }

  -- The agents of a run change no row of any run.
  answer_of-Has : (r : Finish) (w : World site) → Has w → Has (answer_of site (r, w)).1
  unfolding answer_of
  answer_of-Has (finished state) w h = h
  answer_of-Has (Finish.failed e) w h = h
  answer_of-Has recursion_limit w h = h

  pub answer-Preserves : (run : Run) → Preserves Has (answer site run)
  unfolding answer
  answer-Preserves run = record {
    at = λ w h.
        let end = run_workflow (dependencies site run) run.question w in
        answer_of-Has end.0 end.1 (
          run_workflow-Preserves Has (dependencies site run) (dependencies-AllPreserve run)
            run.question w h);
  }

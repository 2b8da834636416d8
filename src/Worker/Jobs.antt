-- ===== src/Worker/Jobs.antt =====
-- worker.py: how one job is executed.
use multi_agent_ai_analyst.Prelude.{
  Outcome, ℕ, ◌&&◌, Option, none, some, first, filter, ok, raise, ◌==◌, if◌then◌else◌,
}
use multi_agent_ai_analyst.Prelude.Text.{lookup, Text, codes}
use multi_agent_ai_analyst.Agents.State.{AgentState, Error, value_error, other_error}
use multi_agent_ai_analyst.Agents.Action.{Action, pure, throw, attempt, ◌>>=◌, ◌>>◌}
use multi_agent_ai_analyst.Agents.Graph.{
  Event, Dependencies, Finish, finished, recursion_limit, run_workflow,
}
use multi_agent_ai_analyst.Queue.Jobs.{Job}
use multi_agent_ai_analyst.RunStore.Rows.{Run, Db, is_terminal}
use multi_agent_ai_analyst.RunStore
use multi_agent_ai_analyst.RunStore.{run_failure_message, run_provider_failure_message}
use multi_agent_ai_analyst.DocumentStore
use multi_agent_ai_analyst.DocumentStore.{
  Document, DocumentStatus, failure_extraction, failure_indexing,
}
use multi_agent_ai_analyst.Worker.Environment.{
  Extraction, extracted, rejected, broken, Site, World, event_kind, event_data, is_settled,
}

module _ {S R : Type 0} (site : Site S R) where
  open site use {tables, documents, queue, services, settings, ids}

  unfoldable pub on_services : {A : Type 0} → Action S A → Action (World site) A
  on_services m w = let (r, s) = m w.services in (r, record w { services = s })

  unfoldable pub on_queue : {A : Type 0} → Action queue.State A → Action (World site) A
  on_queue m w = let (r, q) = m w.queue in (r, record w { queue = q })

  unfoldable pub read : {A : Type 0} → (S → A × S) → Action (World site) A
  read f w = let (a, s) = f w.services in (ok a, record w { services = s })

  unfoldable pub on_db : (Db tables → Db tables) → Action (World site) (Unit {0})
  on_db f w = (ok tt, record w { db = f w.db })

  unfoldable pub on_documents : (documents.State → documents.State) → Action (World site) (Unit {0})
  on_documents f w = (ok tt, record w { documents = f w.documents })

  -- `session.get`
  unfoldable pub run_of : ℕ → Db tables → Option Run
  run_of id db = first (filter (λ r. r.id == id) (tables.runs.rows db.runs))

  unfoldable pub document_of : ℕ → documents.State → Option Document
  document_of id s = first (filter (λ d. d.id == id) (documents.rows s))

  unfoldable pub parsed_id : Option Text → Action (World site) ℕ
  parsed_id none = throw other_error
  parsed_id (some text) = elim (ids.parse text) [ none ↦ throw value_error | some id ↦ pure id ]

  unfoldable pub job_uuid : Job → Text → Action (World site) ℕ
  unfolding parsed_id
  job_uuid job key = parsed_id (lookup key job.payload)

  unfoldable pub emit : Run → Event → Action (World site) (Unit {0})
  unfolding on_db
  emit run event = on_db (RunStore.append_event tables run (event_kind event) (event_data event))

  unfoldable pub dependencies : Run → Dependencies (World site) R
  unfolding on_services emit
  dependencies run =
      let tenant_id = ids.print run.organization_id in
      record {
        generate_text = λ prompt. on_services (services.generate prompt);
        search_documents =
            λ tenant question limit. on_services (services.search_documents tenant question limit);
        search_web = λ question limit. on_services (services.search_web question limit);
        execute_sql =
            if settings.enable_sql_agent
            then some (λ sql. on_services (services.execute_sql sql))
            else none;
        tenant_id = tenant_id;
        max_steps = settings.max_agent_steps;
        max_revisions = settings.max_agent_revisions;
        web_enabled = settings.enable_web_search && settings.has_tavily_api_key;
        recall_memory =
            some (λ question limit. on_services (services.recall question limit tenant_id));
        max_tool_calls = settings.max_tool_calls;
        deadline_seconds = some settings.run_timeout_seconds;
        emit = some (emit run);
        clock =
            λ w. let (now, s) = services.monotonic w.services in (now, record w { services = s });
        lower = services.lower;
        loads = services.loads;
        dump = services.dump;
      }

  -- `run_workflow` returns the state, or raises: the graph's own recursion error among the rest.
  unfoldable pub answer_of : Finish × World site → Outcome Error AgentState × World site
  answer_of (finished state, w) = (ok state, w)
  answer_of (Finish.failed e, w) = (raise e, w)
  answer_of (recursion_limit, w) = (raise other_error, w)

  unfoldable pub answer : Run → Action (World site) AgentState
  unfolding answer_of dependencies
  answer run w = answer_of (run_workflow (dependencies run) run.question w)

  unfoldable pub drive : Run → Action (World site) (Unit {0})
  unfolding read on_db on_services answer
  drive run = do
    started ← read services.utc_now
    on_db (RunStore.mark_running tables started run)
    on_services services.build
    state ← answer run
    now ← read services.utc_now
    on_db (RunStore.mark_completed tables ids now run state.answer state.citations)
    attempt
        (on_services (services.remember (ids.print run.organization_id) run.question state.answer))
        pure (λ _. pure tt)

  unfoldable pub with_run : Option Run → Action (World site) (Unit {0})
  unfolding drive
  with_run none w = (ok tt, w)
  with_run (some run) w = if is_terminal run.status then (ok tt, w) else drive run w

  unfoldable pub execute : Job → Action (World site) (Unit {0})
  unfolding with_run run_of job_uuid
  execute job = job_uuid job (codes "run_id") >>= λ id w. with_run (run_of id w.db) w

  unfoldable pub store_extraction : Document → Extraction → Action (World site) (Unit {0})
  unfolding on_services on_documents read
  store_extraction document rejected = do
    now ← read services.utc_now
    on_documents (DocumentStore.mark_failed documents now document failure_extraction)
  store_extraction document (broken e) = throw e
  store_extraction document (extracted content) = do
    on_services services.build
    chunks ← on_services (
        services.ingest_text (ids.print document.organization_id) (ids.print document.id)
          document.filename content)
    now ← read services.utc_now
    on_documents (DocumentStore.mark_ready documents now document chunks)

  unfoldable pub index : Document → Action (World site) (Unit {0})
  unfolding on_services on_documents read store_extraction
  index document = do
    started ← read services.utc_now
    on_documents (DocumentStore.mark_processing documents started document)
    raw ← on_services (services.get_object document.object_key)
    store_extraction document (services.extract document.filename raw)

  unfoldable pub with_document : Option Document → Action (World site) (Unit {0})
  unfolding index
  with_document none w = (ok tt, w)
  with_document (some document) w =
      if is_settled document.status then (ok tt, w) else index document w

  unfoldable pub ingest : Job → Action (World site) (Unit {0})
  unfolding with_document document_of job_uuid
  ingest job =
      job_uuid job (codes "document_id") >>= λ id w. with_document (document_of id w.documents) w

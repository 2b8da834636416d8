-- ===== src/Worker.antt =====
-- worker.py: the process that claims jobs and runs them to a terminal state.
pub mod Documents
pub mod Environment
pub mod Jobs
pub mod Rows
pub mod Others
pub mod Terminal
pub mod Queues
pub mod Settling
pub mod Handling
mod Tests
use multi_agent_ai_analyst.Prelude.{
  map, Outcome, ℕ, zero, suc, ◌-◌, Bool, true, false, ◌&&◌, List, [], ◌∷◌, Option, none, some,
  first, filter, ok, raise, ◌==◌, if◌then◌else◌,
}
use multi_agent_ai_analyst.Prelude.Text.{Text, codes, text_eq}
use multi_agent_ai_analyst.Json.{Json}
use multi_agent_ai_analyst.Database.{Table}
use multi_agent_ai_analyst.Agents.State.{
  RouteName, retriever, web, analytics, finish, Exhausted, tool_calls, deadline, AgentState, Error,
  provider_error, value_error, other_error,
}
use multi_agent_ai_analyst.Agents.Action.{Action, pure, throw, attempt, ◌>>=◌, ◌>>◌}
use multi_agent_ai_analyst.Agents.Supervisor.{Prompt}
use multi_agent_ai_analyst.Agents.Specialists.{SearchResult, WebSearchResult}
use multi_agent_ai_analyst.Agents.Graph.{
  Event, budget_exhausted, routing, retrieving, retrieving_web, querying, generating, Dependencies,
  Finish, finished, recursion_limit, run_workflow,
}
use multi_agent_ai_analyst.Queue.Jobs.{JobType, ingest_document, execute_run, unknown, Job}
use multi_agent_ai_analyst.RunStore.Rows.{Ids, Run, Tables, Db, is_terminal}
use multi_agent_ai_analyst.RunStore
use multi_agent_ai_analyst.RunStore.{run_failure_message, run_provider_failure_message}
use multi_agent_ai_analyst.DocumentStore
use multi_agent_ai_analyst.DocumentStore.{
  Document, DocumentStatus, failure_extraction, failure_indexing,
}
use multi_agent_ai_analyst.Worker.Environment.{
  JobQueue, Extraction, extracted, rejected, broken, Services, Settings, Site, World, event_kind,
  event_data, is_settled, is_refusal,
}
use multi_agent_ai_analyst.Worker.Jobs.{
  on_services, on_queue, read, on_db, on_documents, run_of, document_of, job_uuid, emit,
  dependencies, answer, drive, execute, index, ingest,
}

module _ {S R : Type 0} (site : Site S R) where
  open site use {tables, documents, queue, services, settings, ids}

  unfoldable pub perform : JobType → Job → Action (World site) (Unit {0})
  unfolding execute ingest
  perform execute_run job = execute site job
  perform ingest_document job = ingest site job
  perform (unknown name) job = pure tt

  unfoldable pub fail_run : (refused : Bool) → Option Run → Action (World site) (Unit {0})
  unfolding read on_db
  fail_run refused none w = (ok tt, w)
  fail_run refused (some run) w =
      if is_terminal run.status
      then (ok tt, w)
      else (read site services.utc_now >>= λ now. on_db site (
            RunStore.mark_failed tables now run
              (if refused then run_provider_failure_message else run_failure_message)))
          w

  fail_document : Option Document → Action (World site) (Unit {0})
  unfolding read on_documents
  fail_document none w = (ok tt, w)
  fail_document (some document) w =
      if is_settled document.status
      then (ok tt, w)
      else (read site services.utc_now >>= λ now.
            on_documents site (DocumentStore.mark_failed documents now document failure_indexing))
          w

  give_up : JobType → (refused : Bool) → Job → Action (World site) (Unit {0})
  unfolding fail_run fail_document run_of document_of job_uuid
  give_up execute_run refused job =
      job_uuid site job (codes "run_id") >>= λ id w. fail_run refused (run_of site id w.db) w
  give_up ingest_document refused job = job_uuid site job (codes "document_id") >>= λ id w.
      fail_document (document_of site id w.documents) w
  give_up (unknown name) refused job = pure tt

  unfoldable pub mark_permanently_failed : (refused : Bool) → Job → Action (World site) (Unit {0})
  unfolding give_up
  mark_permanently_failed refused job = attempt (give_up job.type refused job) pure (λ _. pure tt)

  -- What `handle` does with the exception of a job.
  unfoldable pub recover_from : Job → Error → Action (World site) (Unit {0})
  unfolding on_queue mark_permanently_failed
  recover_from job e w =
      if is_refusal e
      then (on_queue site (queue.ack job) >> mark_permanently_failed true job) w
      else (on_queue site (queue.retry job) >>= λ again w'.
            if again then (ok tt, w') else mark_permanently_failed false job w')
          w

  unfoldable pub handle : Job → Action (World site) (Unit {0})
  unfolding perform on_queue recover_from
  handle job =
      attempt (perform job.type job >> on_queue site (queue.ack job)) pure (recover_from job)

  requeue : JobType → Text → List ℕ → Action (World site) (Unit {0})
  unfolding read on_queue
  requeue type key [] = pure tt
  requeue type key (id ∷ rest) = read site services.uuid4 >>= λ fresh.
      on_queue site (queue.enqueue fresh type ((key, ids.print id) ∷ [])) >> requeue type key rest

  unfoldable pub recover_stranded_rows : Action (World site) (Unit {0})
  unfolding read requeue
  recover_stranded_rows = read site services.utc_now >>= λ now.
      let cutoff = now - settings.job_visibility_timeout_seconds in
      attempt
        ((λ w.
            requeue ingest_document (codes "document_id")
              (map (λ (d : Document). d.id)
                (DocumentStore.stale_processing documents cutoff w.documents))
              w)
          >> (λ w.
              requeue execute_run (codes "run_id")
                (map (λ (r : Run). r.id) (RunStore.stale_runs tables cutoff w.db)) w))
        pure (λ _. pure tt)

  with_job : Option Job → Action (World site) (Unit {0})
  unfolding handle
  with_job none = pure tt
  with_job (some job) = handle job

  -- One round of the loop.
  unfoldable pub tick : Action (World site) (Unit {0})
  unfolding on_queue with_job
  tick =
      attempt (on_queue site queue.recover_expired >> on_queue site queue.claim) with_job
        (λ _. pure tt)

  ticks : (rounds : ℕ) → Action (World site) (Unit {0})
  unfolding tick
  ticks zero = pure tt
  ticks (suc rounds) = tick >> ticks rounds

  -- The loop, for as many rounds as begin before a stop.
  unfoldable pub run_forever : (rounds : ℕ) → Action (World site) (Unit {0})
  unfolding recover_stranded_rows ticks
  run_forever rounds = recover_stranded_rows >> ticks rounds

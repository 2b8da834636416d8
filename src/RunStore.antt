-- ===== src/RunStore.antt =====
-- services/run_store.py: runs, their events, citations and feedback, and the daily quota. Each function
-- takes the time as an argument, and ends with its commit.
pub mod Rows
pub mod Changes
pub mod Events
pub mod Quota
pub mod Verdicts
pub mod Reads
mod Tests
use multi_agent_ai_analyst.Prelude.{
  ℕ, suc, ◌+◌, Bool, true, false, ◌&&◌, ◌||◌, List, [], ◌∷◌, ◌++◌, Option, none, some, first,
  filter, take, length, ltb, ◌==◌, if◌then◌else◌,
}
use multi_agent_ai_analyst.Prelude.Text.{Text, codes, decimal}
use multi_agent_ai_analyst.Database.{Table}
use multi_agent_ai_analyst.Database.Queries.{order_by, order_by_desc, max_of}
use multi_agent_ai_analyst.Agents.State.{Citation}
use multi_agent_ai_analyst.RunStore.Rows.{
  Ids, RunStatus, queued, running, completed, failed, Run, RunEvent, RunCitation, Feedback,
  DailyUsage, Tables, Db,
}

abbrev pub run_failure_message : Text
run_failure_message = codes "The analyst run could not complete. Please try again."

abbrev pub run_provider_failure_message : Text
run_provider_failure_message =
    codes
      "The analyst service could not reach its model provider. This needs an administrator — retrying will not help."

-- `left == right` of two optional ids, where the database compares NULL by IS NULL.
abbrev pub same_user : Option ℕ → Option ℕ → Bool
same_user none none = true
same_user (some a) (some b) = a == b
same_user _ _ = false

unfoldable pub is_stale_status : RunStatus → Bool
is_stale_status queued = true
is_stale_status running = true
is_stale_status _ = false

document_id_of : Ids → Option Text → Option ℕ
document_id_of ids none = none
document_id_of ids (some []) = none
document_id_of ids (some (c ∷ t)) = ids.parse (c ∷ t)

url_of : Option Text → Option Text
url_of none = none
url_of (some []) = none
url_of (some (c ∷ t)) = some (take 2048 (c ∷ t))

unfoldable pub citation_row : Ids → Run → ℕ → Citation → RunCitation
unfolding document_id_of url_of
citation_row ids run position citation = record {
  run_id = run.id;
  organization_id = run.organization_id;
  position = position;
  reference = take 120 citation.id;
  kind = citation.kind;
  title = take 512 citation.title;
  excerpt = citation.excerpt;
  url = url_of citation.url;
  document_id = document_id_of ids citation.document_id;
  chunk_index = citation.chunk_index;
}

module _ (t : Tables) where
  -- The events of a run.
  abbrev pub events_of : ℕ → Db t → List RunEvent
  events_of run_id db = filter (λ e. e.run_id == run_id) (t.events.rows db.events)

  unfoldable pub append_event : Run → Text → List (Text × Text) → Db t → Db t
  append_event run event_type payload db = record db {
    events =
        t.events.insert
          (record {
            run_id = run.id;
            organization_id = run.organization_id;
            sequence = max_of (λ e. e.sequence) (events_of run.id db) + 1;
            event_type = event_type;
            payload = payload;
          })
          db.events;
  }

  -- `id` is the fresh `uuid4()`.
  unfoldable pub create_run :
      (ids : Ids) (now id organization_id : ℕ) (user_id : Option ℕ) (question : Text)
      → Db t
      → Run × Db t
  unfolding append_event
  create_run ids now id organization_id user_id question db =
      let run : Run = record {
        id = id;
        organization_id = organization_id;
        created_by_user_id = user_id;
        question = question;
        status = queued;
        answer = none;
        error = none;
        attempt_count = 0;
        started_at = none;
        completed_at = none;
        created_at = now;
        updated_at = now;
      } in
      let added = record db { runs = t.runs.insert run db.runs } in
      (run, append_event run (codes "run_started") ((codes "run_id", ids.print id) ∷ []) added)

  unfoldable pub get_run : (organization_id run_id : ℕ) → Db t → Option Run
  get_run organization_id run_id db =
      first
        (filter (λ r. r.id == run_id && r.organization_id == organization_id) (t.runs.rows db.runs))

  unfoldable pub list_runs : (organization_id limit : ℕ) → Db t → List Run
  list_runs organization_id limit db = take limit (
      order_by_desc (λ r. r.created_at)
        (filter (λ r. r.organization_id == organization_id) (t.runs.rows db.runs)))

  unfoldable pub events_since : (organization_id run_id after_sequence : ℕ) → Db t → List RunEvent
  events_since organization_id run_id after_sequence db =
      order_by (λ e. e.sequence)
        (filter
          (λ e.
            e.run_id == run_id
            && e.organization_id == organization_id
            && ltb after_sequence e.sequence)
          (t.events.rows db.events))

  unfoldable pub stale_runs : (older_than : ℕ) → Db t → List Run
  unfolding is_stale_status
  stale_runs older_than db =
      filter (λ r. is_stale_status r.status && ltb r.updated_at older_than) (t.runs.rows db.runs)

  unfoldable pub citations_for : (run_id : ℕ) → Db t → List RunCitation
  citations_for run_id db =
      order_by (λ c. c.position) (filter (λ c. c.run_id == run_id) (t.citations.rows db.citations))

  -- The update of one run's row, which sets its time of change.
  unfoldable pub set_run : (now run_id : ℕ) → (Run → Run) → Db t → Db t
  set_run now run_id f db = record db {
    runs = t.runs.update (λ r. r.id == run_id) (λ r. record (f r) { updated_at = now }) db.runs;
  }

  unfoldable pub mark_running : (now : ℕ) → Run → Db t → Db t
  unfolding set_run
  mark_running now run = set_run now run.id (λ r. record r {
    status = running;
    started_at = some now;
    attempt_count = r.attempt_count + 1;
  })

  unfoldable pub add_citations : Ids → Run → (position : ℕ) → List Citation → Db t → Db t
  unfolding citation_row
  add_citations ids run position [] db = db
  add_citations ids run position (citation ∷ rest) db =
      add_citations ids run (position + 1) rest (record db {
        citations = t.citations.insert (citation_row ids run position citation) db.citations;
      })

  unfoldable pub mark_completed :
      Ids → (now : ℕ) → Run → (answer : Text) → List Citation → Db t → Db t
  unfolding set_run add_citations append_event
  mark_completed ids now run answer citations db =
      append_event run (codes "completed")
        ((codes "run_id", ids.print run.id)
          ∷ (codes "citation_count", decimal (length citations))
          ∷ [])
        (add_citations ids run 0 citations (
          set_run now run.id
            (λ r. record r { status = completed; answer = some answer; completed_at = some now })
            db))

  unfoldable pub mark_failed : (now : ℕ) → Run → (message : Text) → Db t → Db t
  unfolding set_run append_event
  mark_failed now run message db =
      append_event run (codes "failed") ((codes "message", message) ∷ []) (
        set_run now run.id
          (λ r. record r { status = failed; error = some message; completed_at = some now }) db)

  unfoldable pub feedback_of : (run_id : ℕ) → Option ℕ → Db t → List Feedback
  feedback_of run_id user_id db =
      filter (λ f. f.run_id == run_id && same_user f.user_id user_id) (t.feedback.rows db.feedback)

  -- `existing` has no id of its own here: the (run, user) pair is unique in the table.
  unfoldable pub store_feedback :
      Run → Option ℕ → Bool → Option Text → Option Feedback → Db t → Db t
  store_feedback run user_id approved comment none db = record db {
    feedback =
        t.feedback.insert
          (record {
            run_id = run.id;
            organization_id = run.organization_id;
            user_id = user_id;
            approved = approved;
            comment = comment;
          })
          db.feedback;
  }
  store_feedback run user_id approved comment (some existing) db = record db {
    feedback =
        t.feedback.update (λ f. f.run_id == run.id && same_user f.user_id user_id)
          (λ f. record f { approved = approved; comment = comment }) db.feedback;
  }

  unfoldable pub record_feedback : Run → Option ℕ → Bool → Option Text → Db t → Db t
  unfolding store_feedback
  record_feedback run user_id approved comment db =
      store_feedback run user_id approved comment (first (feedback_of run.id user_id db)) db

  unfoldable pub usage_of : (organization_id today : ℕ) → Db t → List DailyUsage
  usage_of organization_id today db =
      filter (λ u. u.organization_id == organization_id && u.usage_date == today)
        (t.usage.rows db.usage)

  unfoldable pub ensured : (organization_id today : ℕ) → Option DailyUsage → Db t → Db t
  ensured organization_id today (some row) db = db
  ensured organization_id today none db = record db {
    usage =
        t.usage.insert
          (record { organization_id = organization_id; usage_date = today; run_count = 0 })
          db.usage;
  }

  unfoldable pub ensure_usage_row : (organization_id today : ℕ) → Db t → Db t
  unfolding ensured
  ensure_usage_row organization_id today db =
      ensured organization_id today (first (usage_of organization_id today db)) db

  -- False stands for `QuotaExceededError`: the update found no row below the limit.
  unfoldable pub consume_daily_quota : (today organization_id limit : ℕ) → Db t → Bool × Db t
  consume_daily_quota today organization_id limit db =
      let db' = ensure_usage_row organization_id today db in
      let below = λ (u : DailyUsage).
        u.organization_id == organization_id && u.usage_date == today && ltb u.run_count limit in
      if length (filter below (t.usage.rows db'.usage)) == 0 then (false, db') else (
        true,
        record db' {
          usage = t.usage.update below (λ u. record u { run_count = u.run_count + 1 }) db'.usage;
        },
      )

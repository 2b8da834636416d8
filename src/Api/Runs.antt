-- ===== src/Api/Runs.antt =====
-- api/routes/runs.py: the routes, and the event stream.
use multi_agent_ai_analyst.Prelude.{
  ℕ, zero, suc, ◌*◌, Bool, true, false, ◌&&◌, List, [], ◌∷◌, ◌++◌, map, Option, none, some, Outcome,
  ok, raise, if◌then◌else◌,
}
use multi_agent_ai_analyst.Prelude.Text.{Text, codes, strip, decimal}
use multi_agent_ai_analyst.Agents.State.{Citation}
use multi_agent_ai_analyst.Queue.Jobs.{execute_run}
use multi_agent_ai_analyst.RunStore
use multi_agent_ai_analyst.RunStore.Rows.{RunStatus, Run, RunEvent, RunCitation, Db, is_terminal}
use multi_agent_ai_analyst.Auth.Rows.{Principal}
use multi_agent_ai_analyst.Api.Site.{Site, World, HttpError, http_error, rate_limit_key, enforced}
use multi_agent_ai_analyst.Api.Cursor.{parse_cursor}

pub record RunAccepted : Type 0 where
  pub id : Text
  pub status : RunStatus

pub record RunResult : Type 0 where
  pub id : Text
  pub status : RunStatus
  pub question : Text
  pub answer : Option Text
  pub citations : List Citation
  pub error : Option Text

-- What a request draws: the time, the day, and the new ids of a run and of its job.
pub record Draws : Type 0 where
  pub now : ℕ
  pub today : ℕ
  pub run_id : ℕ
  pub job_id : ℕ

abbrev pub one_hour : ℕ
one_hour = 60 * 60

-- `if row.url: citation["url"] = row.url`
abbrev pub shown_url : Option Text → Option Text
shown_url none = none
shown_url (some []) = none
shown_url (some (c ∷ url)) = some (c ∷ url)

-- The stream ends because the run has, or because its rounds are over.
pub data End : Type 0 where
  drained out_of_time : End

abbrev pub is_nil {ℓ} : {A : Type ℓ} → List A → Bool
is_nil [] = true
is_nil (x ∷ xs) = false

-- `for event in events: cursor = event.sequence`
unfoldable pub last_sequence : (cursor : ℕ) → List RunEvent → ℕ
last_sequence cursor [] = cursor
last_sequence cursor (e ∷ events) = last_sequence e.sequence events

-- `run is None or run.status in RUN_TERMINAL_STATUSES`
abbrev pub is_over : Option Run → Bool
is_over none = true
is_over (some run) = is_terminal run.status

module _ (site : Site) where
  open site use {tables, queue, limiter, ids, settings, dumps}

  -- The run is stored, whether or not its job can be queued.
  unfoldable pub started :
      Draws
      → Principal
      → (question : Text) → World site
      → Outcome HttpError RunAccepted × World site
  unfolding strip RunStore.create_run
  started draws principal question w =
      let (run, db) =
        RunStore.create_run tables ids draws.now draws.run_id principal.organization_id
          (some principal.user_id) (strip question) w.db in
      let (sent, queue') =
        queue.enqueue draws.job_id execute_run ((codes "run_id", ids.print run.id) ∷ []) w.queue in
      (
        elim sent [
          | ok u ↦ ok (record { id = ids.print run.id; status = run.status })
          | raise e ↦ raise (http_error 503)
        ],
        record { db = db; queue = queue'; limiter = w.limiter },
      )

  unfoldable pub charged :
      Draws
      → Principal
      → (question : Text) → World site
      → Outcome HttpError RunAccepted × World site
  unfolding RunStore.consume_daily_quota started
  charged draws principal question w =
      let (granted, db) =
        RunStore.consume_daily_quota tables draws.today principal.organization_id
          settings.daily_run_quota_per_organization w.db in
      let w' = record w { db = db } in
      if granted then started draws principal question w' else (raise (http_error 429), w')

  -- The guard of the limiter, and what follows if it lets the request pass.
  abbrev pub admitted :
      Outcome HttpError (Unit {0})
      → (World site → Outcome HttpError RunAccepted × World site)
      → World site
      → Outcome HttpError RunAccepted × World site
  admitted (raise e) rest w = (raise e, w)
  admitted (ok u) rest w = rest w

  unfoldable pub create_run :
      Draws
      → Principal
      → (question : Text) → World site
      → Outcome HttpError RunAccepted × World site
  unfolding rate_limit_key enforced charged
  create_run draws principal question w =
      let (guarded, limiter') =
        enforced site
          (rate_limit_key site (codes "runs") (codes "organization")
            (ids.print principal.organization_id))
          settings.rate_limit_runs_per_hour one_hour true w.limiter in
      admitted guarded (charged draws principal question) (record w { limiter = limiter' })

  unfoldable pub list_runs : Principal → World site → List RunAccepted
  unfolding RunStore.list_runs
  list_runs principal w =
      map (λ (run : Run). record { id = ids.print run.id; status = run.status })
        (RunStore.list_runs tables principal.organization_id 50 w.db)

  abbrev pub found : Option Run → Outcome HttpError Run
  found none = raise (http_error 404)
  found (some run) = ok run

  -- `_require_run`
  unfoldable pub require_run : Principal → (run_id : ℕ) → World site → Outcome HttpError Run
  unfolding RunStore.get_run
  require_run principal run_id w =
      found (RunStore.get_run tables principal.organization_id run_id w.db)

  -- `_citation`
  unfoldable pub shown_citation : RunCitation → Citation
  shown_citation row = record {
    id = row.reference;
    kind = row.kind;
    title = row.title;
    excerpt = row.excerpt;
    url = shown_url row.url;
    document_id = elim row.document_id [ none ↦ none | some id ↦ some (ids.print id) ];
    chunk_index = row.chunk_index;
  }

  unfoldable pub get_run : Principal → (run_id : ℕ) → World site → Outcome HttpError RunResult
  unfolding require_run shown_citation RunStore.citations_for
  get_run principal run_id w = elim (require_run principal run_id w) [
    | raise e ↦ raise e
    | ok run ↦ ok (record {
      id = ids.print run.id;
      status = run.status;
      question = run.question;
      answer = run.answer;
      citations = map shown_citation (RunStore.citations_for tables run.id w.db);
      error = run.error;
    })
  ]

  unfoldable pub submit_feedback :
      Principal
      → (run_id : ℕ) (approved : Bool) (comment : Option Text) → World site
      → Outcome HttpError (Unit {0}) × World site
  unfolding require_run RunStore.record_feedback
  submit_feedback principal run_id approved comment w = elim (require_run principal run_id w) [
    | raise e ↦ (raise e, w)
    | ok run ↦ (
      ok tt,
      record w {
        db = RunStore.record_feedback tables run (some principal.user_id) approved comment w.db;
      },
    )
  ]

  -- `_sse`
  unfoldable pub sse : RunEvent → Text
  unfolding decimal
  sse event =
      codes "id: "
      ++ (decimal event.sequence
          ++ (codes "\nevent: "
              ++ (event.event_type ++ (codes "\ndata: " ++ (dumps event.payload ++ codes "\n\n")))))

  -- The rounds of `_event_stream`, half a second each. `dbs` are the tables at each read, two to a
  -- round, between which other processes change them. The result holds the events whose frames are sent.
  unfoldable pub event_stream :
      (rounds organization_id run_id cursor : ℕ) → (ℕ → Db tables) → List RunEvent × End
  unfolding RunStore.events_since RunStore.get_run last_sequence
  event_stream zero organization_id run_id cursor dbs = ([], out_of_time)
  event_stream (suc rounds) organization_id run_id cursor dbs =
      let events = RunStore.events_since tables organization_id run_id cursor (dbs 0) in
      let finished = is_over (RunStore.get_run tables organization_id run_id (dbs 1)) in
      let rest =
        event_stream rounds organization_id run_id (last_sequence cursor events)
          (λ i. dbs (suc (suc i))) in
      if finished && is_nil events then ([], drained) else (events ++ rest.0, rest.1)

  -- `_STREAM_MAX_SECONDS` in rounds of `_STREAM_POLL_SECONDS`
  abbrev pub stream_rounds : ℕ
  stream_rounds = 1800 * 2

  -- The frames that the response streams, once the run is found.
  unfoldable pub streamed :
      (rounds organization_id cursor : ℕ)
      → (ℕ → Db tables)
      → Outcome HttpError Run
      → Outcome HttpError (List Text)
  unfolding event_stream sse
  streamed rounds organization_id cursor dbs (raise e) = raise e
  streamed rounds organization_id cursor dbs (ok run) =
      ok (map sse (event_stream rounds organization_id run.id cursor dbs).0)

  unfoldable pub stream_run_events :
      Principal
      → (run_id : ℕ) (last_event_id : Option Text) → World site
      → (ℕ → Db tables)
      → Outcome HttpError (List Text)
  unfolding require_run parse_cursor streamed
  stream_run_events principal run_id last_event_id w dbs =
      streamed stream_rounds principal.organization_id (parse_cursor last_event_id) dbs
        (require_run principal run_id w)

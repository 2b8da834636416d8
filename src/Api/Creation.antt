-- ===== src/Api/Creation.antt =====
-- What a request for a run stores.
use multi_agent_ai_analyst.Prelude.{
  ◌∙◌, ap, ℕ, ◌<◌, ◌≡◌, ◌⊎◌, inl, inr, refl, ◌&&◌, [], ◌∷◌, ◌++◌, Option, none, some, first, filter,
  Outcome, ok, raise, ltb, arith, Bool-cases,
}
use multi_agent_ai_analyst.Prelude.Text.{Text, strip}
use multi_agent_ai_analyst.Database.Queries.{filter-append}
use multi_agent_ai_analyst.RunStore
use multi_agent_ai_analyst.RunStore.Rows.{Run, DailyUsage, Tables, Db, queued}
use multi_agent_ai_analyst.Auth.Rows.{Principal}
use multi_agent_ai_analyst.Api.Site.{Site, World, HttpError}
use multi_agent_ai_analyst.Api.Runs.{Draws, RunAccepted, create_run, charged, started, admitted}

ensured-runs :
    (t : Tables) (organization_id today : ℕ) (found : Option DailyUsage) (db : Db t)
    → (RunStore.ensured t organization_id today found db).runs ≡ db.runs
unfolding RunStore.ensured
ensured-runs t organization_id today none db = refl
ensured-runs t organization_id today (some row) db = refl

consume_daily_quota-runs :
    (t : Tables) (today organization_id limit : ℕ) (db : Db t)
    → (RunStore.consume_daily_quota t today organization_id limit db).1.runs ≡ db.runs
unfolding RunStore.consume_daily_quota RunStore.ensure_usage_row
consume_daily_quota-runs t today organization_id limit db = ground (
  arith,
  ensured-runs t organization_id today (first (RunStore.usage_of t organization_id today db)) db,
)

stale_one :
    (older_than : ℕ) (run : Run)
    → run.status ≡ queued
    → run.updated_at < older_than
    → filter (λ r. RunStore.is_stale_status r.status && ltb r.updated_at older_than) (run ∷ [])
      ≡ run ∷ []
unfolding filter RunStore.is_stale_status
stale_one older_than run waits old = rw waits (ground (arith, old))

module _ (site : Site) (draws : Draws) (principal : Principal) (question : Text) where
  open site use {tables, ids}

  -- The request raises and no run is stored, or one is.
  abbrev pub Outcomes :
      (older_than : ℕ) → World site → Outcome HttpError RunAccepted × World site → Type 0
  Outcomes older_than w result =
      ((e : HttpError) × (result.0 ≡ raise e) × (result.1.db.runs ≡ w.db.runs))
      ⊎ ((run : Run) × (run.id ≡ draws.run_id)
          × (run.organization_id ≡ principal.organization_id)
          × (run.question ≡ strip question)
          × (run.status ≡ queued)
          × (tables.runs.rows result.1.db.runs ≡ tables.runs.rows w.db.runs ++ run ∷ [])
          × (RunStore.stale_runs tables older_than result.1.db
              ≡ RunStore.stale_runs tables older_than w.db ++ run ∷ []))

  started-Outcomes :
      (older_than : ℕ) (w : World site)
      → draws.now < older_than
      → Outcomes older_than w (started site draws principal question w)
  unfolding started RunStore.create_run RunStore.append_event RunStore.stale_runs
  started-Outcomes older_than w old =
      let run : Run =
        (RunStore.create_run tables ids draws.now draws.run_id principal.organization_id
          (some principal.user_id) (strip question) w.db).0 in
      inr (
        run,
        refl,
        refl,
        refl,
        refl,
        tables.runs.rows-insert _ _,
        rw
            (
              tables.runs.rows-insert _ _,
              filter-append (λ r. RunStore.is_stale_status r.status && ltb r.updated_at older_than)
                  (tables.runs.rows w.db.runs) (run ∷ []),
            )
            (ap (λ xs. RunStore.stale_runs tables older_than w.db ++ xs)
              (stale_one older_than run refl old)),
      )

  Outcomes-same :
      (older_than : ℕ) (w w' : World site) (result : Outcome HttpError RunAccepted × World site)
      → w'.db.runs ≡ w.db.runs
      → Outcomes older_than w' result
      → Outcomes older_than w result
  unfolding RunStore.stale_runs
  Outcomes-same older_than w w' result e (inl (error, raised, same)) = inl (error, raised, same ∙ e)
  Outcomes-same older_than w w' result e (inr (run, id, organization, text, waits, stored, stale)) =
      inr (run, id, organization, text, waits, (rw e at stored), (rw e at stale))

  charged-Outcomes :
      (older_than : ℕ) (w : World site)
      → draws.now < older_than
      → Outcomes older_than w (charged site draws principal question w)
  unfolding charged
  charged-Outcomes older_than w old =
      let (granted, db) =
        RunStore.consume_daily_quota tables draws.today principal.organization_id
          site.settings.daily_run_quota_per_organization w.db in
      let same =
        consume_daily_quota-runs tables draws.today principal.organization_id
          site.settings.daily_run_quota_per_organization w.db in
      elim (Bool-cases granted) [
        | inl e ↦ rw e (
            Outcomes-same older_than w (record w { db = db })
              (started site draws principal question (record w { db = db })) same
              (started-Outcomes older_than (record w { db = db }) old))
        | inr e ↦ rw e (inl (_, refl, same))
      ]

  admitted-Outcomes :
      (older_than : ℕ) (w : World site) (guarded : Outcome HttpError (Unit {0}))
      → draws.now < older_than
      → Outcomes older_than w (admitted site guarded (charged site draws principal question) w)
  admitted-Outcomes older_than w (raise e) old = inl (e, refl, refl)
  admitted-Outcomes older_than w (ok u) old = charged-Outcomes older_than w old

  -- A request for a run raises and stores no run, or it adds one queued run, with the question and for the
  -- organization of the principal, which the sweep for stranded runs finds at any later cutoff,
  -- so that it is not lost if its job could not be queued.
  pub create_run-Outcomes :
      (older_than : ℕ) (w : World site)
      → draws.now < older_than
      → Outcomes older_than w (create_run site draws principal question w)
  unfolding create_run
  create_run-Outcomes older_than w old =
      admitted-Outcomes older_than (record w { limiter = _ }) _ old

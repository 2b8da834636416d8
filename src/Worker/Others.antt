-- ===== src/Worker/Others.antt =====
-- The work on a document, or on another run, leaves the rows of a run alone.
use multi_agent_ai_analyst.Prelude.{if◌then◌else◌}
use multi_agent_ai_analyst.Database.Queries.{All-filter}
use multi_agent_ai_analyst.RunStore.{run_failure_message, run_provider_failure_message}
use multi_agent_ai_analyst.Agents.Action.{◌>>=◌}
use multi_agent_ai_analyst.Prelude.{
  ◌∙◌, inr, inl, Bool-cases, All, ℕ, ◌≡◌, Bool, true, false, List, [], ◌∷◌, Option, none, some,
  first, ◌==◌,
}
use multi_agent_ai_analyst.Agents.State.{value_error, Citation}
use multi_agent_ai_analyst.Agents.Action.{throw, Action, pure}
use multi_agent_ai_analyst.Agents.Action.Preserves.{
  Preserves, Preserves-pure, Preserves-throw, Preserves-bind, Preserves-attempt,
}
use multi_agent_ai_analyst.RunStore.Rows.{Run, Db}
use multi_agent_ai_analyst.RunStore.{mark_running, mark_completed, mark_failed}
use multi_agent_ai_analyst.Worker.Environment.{Site, World, Extraction, extracted, rejected, broken}
use multi_agent_ai_analyst.Worker.Jobs.{
  read, on_db, drive, run_of, document_of, job_uuid, parsed_id, index, ingest, with_document,
  store_extraction,
}
use multi_agent_ai_analyst.Worker.Rows.{
  mark_running-other, mark_completed-other, mark_failed-other, rows_of, Has, on_services-Preserves,
  read-Preserves, on_documents-Preserves, answer-Preserves,
}
use multi_agent_ai_analyst.Worker.{is_settled, Document, Job, Text}

module _ {S R : Type 0} (site : Site S R) where
  pub found-id :
      (k : ℕ) (db : Db site.tables) (run : Run) → run_of site k db ≡ some run → (run.id == k) ≡ true
  unfolding run_of
  found-id k db run e =
      go (rows_of site.tables k db) e (All-filter (λ r. r.id == k) (site.tables.runs.rows db.runs))
    where
      go :
          (xs : List Run)
          → first xs ≡ some run
          → All (λ r. (r.id == k) ≡ true) xs
          → (run.id == k) ≡ true
      go [] e h = cc
      go (x ∷ xs) e h = let same : x ≡ run = cc in rw same at h.0

  parsed_id-Preserves : (I : World site → Type 0) (t : Option Text) → Preserves I (parsed_id site t)
  unfolding parsed_id
  parsed_id-Preserves I none = Preserves-throw _
  parsed_id-Preserves I (some text) = go (site.ids.parse text)
    where
      go :
          (o : Option ℕ)
          → Preserves I (
              let x : Action (World site) ℕ = elim o [
                | none ↦ throw value_error
                | some id ↦ pure id
              ] in
              x)
      go none = Preserves-throw _
      go (some id) = Preserves-pure id

  pub job_uuid-Preserves :
      (I : World site → Type 0) (job : Job) (key : Text) → Preserves I (job_uuid site job key)
  unfolding job_uuid
  job_uuid-Preserves I job key = parsed_id-Preserves I _

  module _ (id : ℕ) (rows : List Run) where
    index-Preserves : (d : Document) → Preserves (Has site id rows) (index site d)
    unfolding index store_extraction
    index-Preserves d = Preserves-bind _ _ (read-Preserves site id rows _) (λ _.
        Preserves-bind _ _ (on_documents-Preserves site id rows _) (λ _.
          Preserves-bind _ _ (on_services-Preserves site id rows _)
            (λ raw. stored (site.services.extract d.filename raw))))
      where
        stored : (e : Extraction) → Preserves (Has site id rows) (store_extraction site d e)
        stored rejected =
            Preserves-bind _ _ (read-Preserves site id rows _)
              (λ _. on_documents-Preserves site id rows _)
        stored (broken e) = Preserves-throw e
        stored (extracted t) = Preserves-bind _ _ (on_services-Preserves site id rows _) (λ _.
            Preserves-bind _ _ (on_services-Preserves site id rows _) (λ _.
              Preserves-bind _ _ (read-Preserves site id rows _)
                (λ _. on_documents-Preserves site id rows _)))

    -- No job about a document touches a run.
    pub ingest-Preserves : (job : Job) → Preserves (Has site id rows) (ingest site job)
    unfolding ingest with_document
    ingest-Preserves job =
        Preserves-bind _ _ (job_uuid-Preserves _ job _)
          (λ k. record { at = λ w h. go (document_of site k w.documents) w h })
      where
        go :
            (o : Option Document) (w : World site)
            → Has site id rows w
            → Has site id rows (with_document site o w).1
        go none w h = h
        go (some d) w h = elim (Bool-cases (is_settled d.status)) [
          | inl done ↦ rw done h
          | inr open_ ↦ rw open_ ((index-Preserves d).at w h)
        ]

    pub drive-Preserves :
        (run : Run) → (run.id == id) ≡ false → Preserves (Has site id rows) (drive site run)
    unfolding drive on_db
    drive-Preserves run other = Preserves-bind _ _ (read-Preserves site id rows _) (λ _.
        Preserves-bind _ _ (marked_running _) (λ _.
          Preserves-bind _ _ (on_services-Preserves site id rows _) (λ _.
            Preserves-bind _ _ (answer-Preserves site id rows run) (λ state.
              Preserves-bind _ _ (read-Preserves site id rows _) (λ _.
                Preserves-bind _ _ (marked_completed _ _ _) (λ _.
                  Preserves-attempt _ _ _ (on_services-Preserves site id rows _)
                    (λ _. Preserves-pure _) (λ _. Preserves-pure _)))))))
      where
        marked_running :
            (now : ℕ) → Preserves (Has site id rows) (on_db site (mark_running site.tables now run))
        marked_running now = record {
          at = λ w h. mark_running-other site.tables id run other now w.db ∙ h;
        }

        marked_completed :
            (now : ℕ) (text : Text) (citations : List Citation)
            → Preserves
                (Has site id rows)
                (on_db site (mark_completed site.tables site.ids now run text citations))
        marked_completed now text citations = record {
          at = λ w h.
              mark_completed-other site.tables id run other site.ids now text citations w.db ∙ h;
        }

    pub fail-Preserves :
        (refused : Bool) (run : Run)
        → (run.id == id) ≡ false
        → Preserves (Has site id rows) (
            read site site.services.utc_now >>= λ now. on_db site (
              mark_failed site.tables now run
                (if refused then run_provider_failure_message else run_failure_message)))
    unfolding on_db
    fail-Preserves refused run other =
        Preserves-bind _ _ (read-Preserves site id rows _)
          (λ now. record { at = λ w h. mark_failed-other site.tables id run other now _ w.db ∙ h })

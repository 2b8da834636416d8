-- ===== src/Worker/Terminal.antt =====
-- A finished run stays as it is, whatever the worker does next.
use multi_agent_ai_analyst.Prelude.{suc, zero}
use multi_agent_ai_analyst.Prelude.{if◌then◌else◌}
use multi_agent_ai_analyst.Queue.Jobs.{execute_run, ingest_document, unknown}
use multi_agent_ai_analyst.Prelude.{
  ◌⊎◌, inr, inl, Bool-cases, ℕ, ◌≡◌, refl, Bool, true, false, List, [], ◌∷◌, Option, none, some, ok,
  first, ◌==◌, arith,
}
use multi_agent_ai_analyst.Agents.State.{Error}
use multi_agent_ai_analyst.Agents.Action.{Action}
use multi_agent_ai_analyst.Agents.Action.Preserves.{
  Preserves, Preserves-pure, Preserves-bind, Preserves-attempt,
}
use multi_agent_ai_analyst.RunStore.Rows.{Run, is_terminal}
use multi_agent_ai_analyst.Worker.Environment.{Site, World}
use multi_agent_ai_analyst.Worker.Jobs.{drive, with_run, run_of, document_of, execute}
use multi_agent_ai_analyst.Worker.Rows.{
  rows_of, Has, on_queue-Preserves, read-Preserves, on_documents-Preserves,
}
use multi_agent_ai_analyst.Worker.{
  is_refusal, JobType, is_settled, Document, Job, Text, perform, fail_run, fail_document, give_up,
  mark_permanently_failed, recover_from, handle, requeue, recover_stranded_rows, with_job, tick,
  ticks, run_forever,
}
use multi_agent_ai_analyst.Worker.Others.{
  found-id, job_uuid-Preserves, ingest-Preserves, drive-Preserves, fail-Preserves,
}

module _ {S R : Type 0} (site : Site S R) where
  module _ (id : ℕ) (r : Run) (finished : is_terminal r.status ≡ true) where
    abbrev Stays : World site → Type 0
    Stays = Has site id (r ∷ [])

    -- A run that the worker finds has ended, or is another.
    ended_or_other :
        (k : ℕ) (w : World site) (run : Run)
        → Stays w
        → run_of site k w.db ≡ some run
        → (is_terminal run.status ≡ true) ⊎ ((run.id == id) ≡ false)
    unfolding run_of
    ended_or_other k w run h e = elim (Bool-cases (run.id == id)) [
      | inr other ↦ inr other
      | inl same ↦
          let named = found-id site k w.db run e in
          let here : k ≡ id = ground (arith, same, named) in
          let first_is : first (rows_of site.tables id w.db) ≡ some run = rw here at e in
          let is_r : r ≡ run = (let q = rw h at first_is in cc) in inl (rw is_r at finished)
    ]

    unless_ended :
        (m : Action (World site) (Unit {0})) (run : Run) (w : World site)
        → Stays w
        → (is_terminal run.status ≡ true) ⊎ ((run.id == id) ≡ false)
        → ((run.id == id) ≡ false → Preserves Stays m)
        → Stays (if is_terminal run.status then (ok tt, w) else m w).1
    unless_ended m run w h (inl ended) k = rw ended h
    unless_ended m run w h (inr other) k = elim (Bool-cases (is_terminal run.status)) [
      | inl ended ↦ rw ended h
      | inr going ↦ rw going ((k other).at w h)
    ]

    execute-Preserves : (job : Job) → Preserves Stays (execute site job)
    unfolding execute with_run
    execute-Preserves job = Preserves-bind _ _ (job_uuid-Preserves site _ job _) (λ k. record {
      at = λ w h. go w h (run_of site k w.db) (λ run e. ended_or_other k w run h e);
    })
      where
        go :
            (w : World site)
            → Stays w
            → (o : Option Run)
            → ((run : Run)
                → o ≡ some run
                → (is_terminal run.status ≡ true) ⊎ ((run.id == id) ≡ false))
            → Stays (with_run site o w).1
        go w h none k = h
        go w h (some run) k =
            unless_ended (drive site run) run w h (k run refl)
              (drive-Preserves site id (r ∷ []) run)

    perform-Preserves : (type : JobType) (job : Job) → Preserves Stays (perform site type job)
    unfolding perform
    perform-Preserves execute_run job = execute-Preserves job
    perform-Preserves ingest_document job = ingest-Preserves site id (r ∷ []) job
    perform-Preserves (unknown name) job = Preserves-pure tt

    give_up-Preserves :
        (type : JobType) (refused : Bool) (job : Job)
        → Preserves Stays (give_up site type refused job)
    unfolding give_up fail_run fail_document
    give_up-Preserves execute_run refused job =
        Preserves-bind _ _ (job_uuid-Preserves site _ job _) (λ k. record {
          at = λ w h. go w h (run_of site k w.db) (λ run e. ended_or_other k w run h e);
        })
      where
        go :
            (w : World site)
            → Stays w
            → (o : Option Run)
            → ((run : Run)
                → o ≡ some run
                → (is_terminal run.status ≡ true) ⊎ ((run.id == id) ≡ false))
            → Stays (fail_run site refused o w).1
        go w h none k = h
        go w h (some run) k =
            unless_ended _ run w h (k run refl) (fail-Preserves site id (r ∷ []) refused run)
    give_up-Preserves ingest_document refused job =
        Preserves-bind _ _ (job_uuid-Preserves site _ job _)
          (λ k. record { at = λ w h. go (document_of site k w.documents) w h })
      where
        go : (o : Option Document) (w : World site) → Stays w → Stays (fail_document site o w).1
        go none w h = h
        go (some d) w h = elim (Bool-cases (is_settled d.status)) [
          | inl done ↦ rw done h
          | inr left ↦ rw left (
              (Preserves-bind _ _ (read-Preserves site id (r ∷ []) _)
                  (λ _. on_documents-Preserves site id (r ∷ []) _)).at
                w h)
        ]
    give_up-Preserves (unknown name) refused job = Preserves-pure tt

    mark-Preserves :
        (refused : Bool) (job : Job) → Preserves Stays (mark_permanently_failed site refused job)
    unfolding mark_permanently_failed
    mark-Preserves refused job =
        Preserves-attempt _ _ _ (give_up-Preserves job.type refused job) (λ _. Preserves-pure _)
          (λ _. Preserves-pure _)

    recover_from-Preserves : (job : Job) (e : Error) → Preserves Stays (recover_from site job e)
    unfolding recover_from
    recover_from-Preserves job e = record {
      at = λ w h. elim (Bool-cases (is_refusal e)) [
        | inl refused ↦ rw refused (
            (Preserves-bind _ _ (on_queue-Preserves site id (r ∷ []) (site.queue.ack job))
                (λ _. mark-Preserves true job)).at
              w h)
        | inr transient ↦ rw transient (
            (Preserves-bind _ _ (on_queue-Preserves site id (r ∷ []) (site.queue.retry job))
                (λ again. record { at = λ w h. settle again w h })).at
              w h)
      ];
    }
      where
        settle :
            (again : Bool) (w : World site)
            → Stays w
            → Stays (if again then (ok tt, w) else mark_permanently_failed site false job w).1
        settle true w h = h
        settle false w h = (mark-Preserves false job).at w h

    handle-Preserves : (job : Job) → Preserves Stays (handle site job)
    unfolding handle
    handle-Preserves job =
        Preserves-attempt _ _ _
          (Preserves-bind _ _ (perform-Preserves job.type job)
            (λ _. on_queue-Preserves site id (r ∷ []) _))
          (λ _. Preserves-pure _) (recover_from-Preserves job)

    requeue-Preserves :
        (type : JobType) (key : Text) (ids : List ℕ) → Preserves Stays (requeue site type key ids)
    unfolding requeue
    requeue-Preserves type key [] = Preserves-pure tt
    requeue-Preserves type key (i ∷ rest) =
        Preserves-bind _ _ (read-Preserves site id (r ∷ []) _) (λ _.
          Preserves-bind _ _ (on_queue-Preserves site id (r ∷ []) _)
            (λ _. requeue-Preserves type key rest))

    stranded-Preserves : Preserves Stays (recover_stranded_rows site)
    unfolding recover_stranded_rows
    stranded-Preserves = Preserves-bind _ _ (read-Preserves site id (r ∷ []) _) (λ now.
        Preserves-attempt _ _ _
          (Preserves-bind _ _ (record { at = λ w h. (requeue-Preserves _ _ _).at w h })
            (λ _. record { at = λ w h. (requeue-Preserves _ _ _).at w h }))
          (λ _. Preserves-pure _) (λ _. Preserves-pure _))

    tick-Preserves : Preserves Stays (tick site)
    unfolding tick with_job
    tick-Preserves =
        Preserves-attempt _ _ _
          (Preserves-bind _ _ (on_queue-Preserves site id (r ∷ []) _)
            (λ _. on_queue-Preserves site id (r ∷ []) _))
          claimed (λ _. Preserves-pure _)
      where
        claimed : (o : Option Job) → Preserves Stays (with_job site o)
        claimed none = Preserves-pure tt
        claimed (some job) = handle-Preserves job

    ticks-Preserves : (rounds : ℕ) → Preserves Stays (ticks site rounds)
    unfolding ticks
    ticks-Preserves zero = Preserves-pure tt
    ticks-Preserves (suc rounds) = Preserves-bind _ _ tick-Preserves (λ _. ticks-Preserves rounds)

    -- A run that has ended keeps its row, whatever number of rounds the worker makes, whatever jobs it
    -- claims, and however the services and the queue answer. The id has this one row.
    pub run_forever-Stays :
        (rounds : ℕ) (w : World site)
        → rows_of site.tables id w.db ≡ r ∷ []
        → rows_of site.tables id (run_forever site rounds w).1.db ≡ r ∷ []
    unfolding run_forever
    run_forever-Stays rounds w h =
        (Preserves-bind _ _ stranded-Preserves (λ _. ticks-Preserves rounds)).at w h

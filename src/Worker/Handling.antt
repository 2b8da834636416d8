-- ===== src/Worker/Handling.antt =====
-- A job about a run ends with the run ended, or with the job in the queue again.
use multi_agent_ai_analyst.Prelude.{
  ◌∙◌, ap, ℕ, ◌≡◌, refl, Bool, true, false, List, some, ok, if◌then◌else◌, Bool-cases, inl, inr,
  ◌⊎◌,
}
use multi_agent_ai_analyst.Prelude.Text.{lookup, Text, codes}
use multi_agent_ai_analyst.Agents.State.{Error}
use multi_agent_ai_analyst.Agents.Action.{pure, ◌>>=◌}
use multi_agent_ai_analyst.Agents.Action.Triple.{
  After-ok, After-mono, After-returns, After, Triple, Triple-attempt, Triple-bind,
}
use multi_agent_ai_analyst.Queue.Jobs.{Job, execute_run}
use multi_agent_ai_analyst.RunStore.Rows.{Run}
use multi_agent_ai_analyst.Worker.Environment.{JobQueue, Site, World, is_refusal}
use multi_agent_ai_analyst.Worker.Jobs.{on_queue, job_uuid, parsed_id, execute}
use multi_agent_ai_analyst.Worker.Rows.{rows_of}
use multi_agent_ai_analyst.Worker.{
  JobQueue, perform, give_up, mark_permanently_failed, recover_from, handle,
}
use multi_agent_ai_analyst.Worker.Settling.{IsOne, HasEnded, Holds, with_run-After, fail_run-After}

-- The queue answers every ack and every retry, without an exception.
pub record Answers (queue : JobQueue) : Type 0 where
  pub acks : (job : Job) (q : queue.State) → (queue.ack job q).0 ≡ ok tt
  pub retries : (job : Job) (q : queue.State) → (again : Bool) × ((queue.retry job q).0 ≡ ok again)

-- The queue has the job back.
abbrev pub Back : {S R : Type 0} (site : Site S R) → Job → World site → Type 0
Back site job w =
    (q : site.queue.State) × ((site.queue.retry job q).0 ≡ ok true)
    × (w.queue ≡ (site.queue.retry job q).1)

abbrev pub IsHandled : {S R : Type 0} (site : Site S R) (id : ℕ) → Job → World site → Type 0
IsHandled site id job w = HasEnded (rows_of site.tables id w.db) ⊎ Back site job w

module _ {S R : Type 0} (site : Site S R) (id : ℕ) where
  module _ (job : Job) (text : Text) (is_run : job.type ≡ execute_run)
      (names : lookup (codes "run_id") job.payload ≡ some text)
      (parses : site.ids.parse text ≡ some id) where
    job_uuid-id : (w : World site) → job_uuid site job (codes "run_id") w ≡ (ok id, w)
    unfolding job_uuid parsed_id pure
    job_uuid-id w = rw names (rw (parses, parsed_id) refl)

    named :
        Triple
          (Holds site id IsOne)
          (job_uuid site job (codes "run_id"))
          (λ k w. (k ≡ id) × Holds site id IsOne w)
          (λ e w. ⊥)
    named = record { at = λ w h. rw (job_uuid-id w) (refl, h) }

    named_or :
        Triple
          (Holds site id IsOne)
          (job_uuid site job (codes "run_id"))
          (λ k w. (k ≡ id) × Holds site id IsOne w)
          (λ e. Holds site id IsOne)
    named_or = record { at = λ w h. rw (job_uuid-id w) (refl, h) }

    execute-Triple :
        Triple
          (Holds site id IsOne)
          (execute site job)
          (λ a. Holds site id HasEnded)
          (λ e. Holds site id IsOne)
    unfolding execute
    execute-Triple =
        Triple-bind _ _ _ named_or
          (λ k. record { at = λ w h. rw h.0 (with_run-After site id w h.1) })

    give_up-Triple :
        (refused : Bool)
        → Triple
            (Holds site id IsOne)
            (give_up site execute_run refused job)
            (λ a. Holds site id HasEnded)
            (λ e w. ⊥)
    unfolding give_up
    give_up-Triple refused =
        Triple-bind _ _ _ named
          (λ k. record { at = λ w h. rw h.0 (fail_run-After site id refused w h.1) })

    marked :
        (refused : Bool)
        → Triple
            (Holds site id IsOne)
            (mark_permanently_failed site refused job)
            (λ a. Holds site id HasEnded)
            (λ e w. ⊥)
    unfolding mark_permanently_failed pure
    marked refused = rw is_run (
        Triple-attempt (λ a. Holds site id HasEnded) (λ e w. ⊥)
          (give_up site execute_run refused job) _ _ (give_up-Triple refused)
          (λ a. record { at = λ w h. h }) (λ e. record { at = λ w h. absurd h }))

    module _ (answers : Answers site.queue) where
      acked :
          (P : List Run → Type 0) (E : Error → World site → Type 0)
          → Triple (Holds site id P) (on_queue site (site.queue.ack job)) (λ a. Holds site id P) E
      unfolding on_queue
      acked P E = record { at = λ w h. After-ok _ _ tt _ _ (answers.acks job w.queue) h }

      done :
          Triple
            (Holds site id IsOne)
            (perform site job.type job >>= λ _. on_queue site (site.queue.ack job))
            (λ a. Holds site id HasEnded)
            (λ e. Holds site id IsOne)
      unfolding perform
      done =
          Triple-bind (λ a. Holds site id HasEnded) _ _ (rw is_run execute-Triple)
            (λ _. acked HasEnded _)

      marked_or :
          (refused : Bool)
          → Triple
              (Holds site id IsOne)
              (mark_permanently_failed site refused job)
              (λ a. IsHandled site id job)
              (λ e w. ⊥)
      marked_or refused = record {
        at = λ w h.
            let end = mark_permanently_failed site refused job w in
            After-mono _ _ _ end.0 end.1 (λ a w' k. inl k) ((marked refused).at w h);
      }

      refused_job :
          Triple
            (Holds site id IsOne)
            (on_queue site (site.queue.ack job) >>= λ _. mark_permanently_failed site true job)
            (λ a. IsHandled site id job)
            (λ e w. ⊥)
      refused_job = Triple-bind (λ a. Holds site id IsOne) _ _ (acked IsOne _) (λ _. marked_or true)

      retried :
          Triple
            (Holds site id IsOne)
            (on_queue site (site.queue.retry job))
            (λ again w. Holds site id IsOne w × (again ≡ true → Back site job w))
            (λ e w. ⊥)
      unfolding on_queue
      retried = record {
        at = λ w h.
            let answer = answers.retries job w.queue in
            After-ok _ _ answer.0 _ _ answer.1
              (h, λ again. (w.queue, answer.1 ∙ ap ok again, refl));
      }

      recovered :
          (e : Error)
          → Triple
              (Holds site id IsOne)
              (recover_from site job e)
              (λ a. IsHandled site id job)
              (λ e w. ⊥)
      unfolding recover_from
      recovered e = record {
        at = λ w h. elim (Bool-cases (is_refusal e)) [
          | inl refused ↦ rw refused (refused_job.at w h)
          | inr transient ↦ rw transient (
              (Triple-bind _ _ _ retried (λ again. record { at = λ w k. settle again w k })).at w h)
        ];
      }
        where
          settle :
              (again : Bool) (w : World site)
              → Holds site id IsOne w × (again ≡ true → Back site job w)
              → After
                  (λ a. IsHandled site id job)
                  (λ e w. ⊥)
                  (if again then (ok tt, w) else mark_permanently_failed site false job w)
          settle true w k = inr (k.1 refl)
          settle false w k = (marked_or false).at w k.0

      -- Where the queue answers and the run has one row, the worker's handling of a job that names the
      -- run returns, and then the run has ended or the queue has taken the job back.
      pub handle_settles :
          (w : World site)
          → IsOne (rows_of site.tables id w.db)
          → ((handle site job w).0 ≡ ok tt) × IsHandled site id job (handle site job w).1
      unfolding handle pure
      handle_settles w h =
          let end = After-returns _ (handle site job w).0 (handle site job w).1 (
            (Triple-attempt _ _ _ _ _ done (λ a. record { at = λ w h. inl h })
                (λ e. recovered e)).at
              w h) in
          (end.1, end.2)

-- ===== src/Agents/Graph/Runs.antt =====
-- Whole runs: `run_workflow`, from the question to the state that it returns.
use multi_agent_ai_analyst.Prelude.{
  List, ◌∷◌, ℕ, ◌+◌, ◌*◌, ◌≤◌, ◌<◌, ◌≡◌, ◌≢◌, refl, [], Option, none, some, Outcome, ok, raise,
  arith, max,
}
use multi_agent_ai_analyst.Prelude.Text.{Text, strip}
use multi_agent_ai_analyst.Agents.State.{empty_state, AgentState, Error, state_of, new_agent_state}
use multi_agent_ai_analyst.Agents.Action.{Action, ◌>>=◌}
use multi_agent_ai_analyst.Agents.Graph.{
  Dependencies, supervisor, Finish, failed, recursion_limit, invoke, run_workflow, run_from,
  recalled, start_budget, recursion_limit_of,
}
use multi_agent_ai_analyst.Agents.Graph.Termination.{invoke_terminates}
use multi_agent_ai_analyst.Agents.Graph.Limits.{KeepsLimits, invoke-KeepsLimits}
use multi_agent_ai_analyst.Agents.Graph.Grounding.{IsGrounded, invoke-IsGrounded}

record IsNew (question : Text) (s : AgentState) : Type 0 where
  question_of : s.question ≡ strip question
  steps : s.steps ≡ []
  revisions : s.revisions ≡ 0
  documents : s.documents ≡ []
  citations : s.citations ≡ []

state_of-IsNew :
    (text : Text) (s : AgentState)
    → state_of text ≡ ok s
    → (s.question ≡ text)
      × (s.steps ≡ [])
      × (s.revisions ≡ 0)
      × (s.documents ≡ [])
      × (s.citations ≡ [])
unfolding state_of empty_state
state_of-IsNew [] s h = cc
state_of-IsNew (c ∷ text) s h = ground arith

new_agent_state-IsNew :
    (question : Text) (s : AgentState) → new_agent_state question ≡ ok s → IsNew question s
unfolding new_agent_state
new_agent_state-IsNew question s h =
    let (question_of, steps, revisions, documents, citations) =
      state_of-IsNew (strip question) s h in
    record {
      question_of = question_of;
      steps = steps;
      revisions = revisions;
      documents = documents;
      citations = citations;
    }

module _ {W R : Type 0} (deps : Dependencies W R) (question : Text) where
  recalled-IsNew :
      (recall : Option (Text → ℕ → Action W (List Text))) (s s' : AgentState) (w : W)
      → IsNew question s
      → (recalled deps recall s w).0 ≡ ok s'
      → IsNew question s'
  unfolding recalled ◌>>=◌
  recalled-IsNew none s s' w h e = ground arith
  recalled-IsNew (some recall) s s' w h e = ground arith

  module _ (Q : Finish → Type 0) (failure : (e : Error) → Q (failed e))
      (run : (s : AgentState) (started : ℕ) (w : W)
        → IsNew question s
        → Q
            (invoke deps
              (recursion_limit_of deps)
              supervisor
              s
              (start_budget deps started)
              w).0) where
    recalled-Q :
        (r : Outcome Error AgentState) (started : ℕ) (w : W)
        → ((s : AgentState) → r ≡ ok s → IsNew question s)
        → Q (
            let x : Finish × W = elim r [
              | raise e ↦ (failed e, w)
              | ok s ↦
                  invoke deps (recursion_limit_of deps) supervisor s (start_budget deps started) w
            ] in
            x.0)
    recalled-Q (raise e) started w h = failure e
    recalled-Q (ok s) started w h = run s started w (h s refl)

    run_from-Q :
        (r : Outcome Error AgentState) (w : W)
        → ((s : AgentState) → r ≡ ok s → IsNew question s)
        → Q (run_from deps r w).0
    unfolding run_from
    run_from-Q (raise e) w h = failure e
    run_from-Q (ok s) w h =
        let (started, w₁) = deps.clock w in
        recalled-Q (recalled deps deps.recall_memory s w₁).0 started
          (recalled deps deps.recall_memory s w₁).1
          (λ s' e. recalled-IsNew deps.recall_memory s s' w₁ (h s refl) e)

    run_workflow-Q : (w : W) → Q (run_workflow deps question w).0
    unfolding run_workflow
    run_workflow-Q w = run_from-Q (new_agent_state question) w (new_agent_state-IsNew question)

module _ {W R : Type 0} (deps : Dependencies W R) where
  -- If `max_steps + 3 * max_revisions + 4` is at most the recursion limit that the run sets,
  -- `max(8, 4 * max_steps)`, a run never ends in the graph's recursion error: it returns a state, or
  -- raises what one of its services raised.
  pub run_workflow_terminates :
      deps.max_steps + 3 * deps.max_revisions + 4 ≤ max 8 (deps.max_steps * 4)
      → (question : Text) (w : W) → (run_workflow deps question w).0 ≢ recursion_limit
  run_workflow_terminates h question =
      run_workflow-Q deps question (λ r. r ≢ recursion_limit) (λ e k. cc)
        (λ s started w new.
          invoke_terminates deps (recursion_limit_of deps) s (start_budget deps started) w new.steps
            new.revisions (unfold recursion_limit_of in h))

  -- A run that returns has run at most `max_tool_calls` evidence agents, and has counted at most one
  -- revision more than `max_revisions`.
  pub run_workflow-KeepsLimits :
      (question : Text) (w : W) → KeepsLimits deps (run_workflow deps question w).0
  unfolding start_budget
  run_workflow-KeepsLimits question =
      run_workflow-Q deps question (KeepsLimits deps) (λ e. tt)
        (λ s started w new.
          invoke-KeepsLimits deps (recursion_limit_of deps) s (start_budget deps started) w
            new.steps new.revisions refl refl)

  -- If a run may take a step at all, then a state that it returns has an answer that is not empty;
  -- an evidence agent has run before it, or the run's budget ran out; and the last review approved
  -- the answer, or the revisions were used up.
  pub run_workflow-IsGrounded :
      0 < deps.max_steps
      → (question : Text) (w : W) → IsGrounded deps (run_workflow deps question w).0
  run_workflow-IsGrounded h question =
      run_workflow-Q deps question (IsGrounded deps) (λ e. tt)
        (λ s started w new.
          invoke-IsGrounded deps h (recursion_limit_of deps) s (start_budget deps started) w
            new.steps)

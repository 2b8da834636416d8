-- ===== src/Agents/Graph/Effects.antt =====
-- What the services keep true of their state, a whole run keeps true of it.
use multi_agent_ai_analyst.Prelude.{
  ℕ, zero, suc, List, [], ◌∷◌, Option, none, some, Outcome, ok, raise, Bool-cases, inl, inr, leb,
  length,
}
use multi_agent_ai_analyst.Prelude.Text.{Text, strip}
use multi_agent_ai_analyst.Agents.State.{AgentState, Error, RouteName, Exhausted, new_agent_state}
use multi_agent_ai_analyst.Agents.Action.{Action}
use multi_agent_ai_analyst.Agents.Action.Preserves.{
  Preserves, Preserves-pure, Preserves-throw, Preserves-lift, Preserves-attempt, Preserves-bind,
}
use multi_agent_ai_analyst.Agents.Supervisor.{Prompt, choose_route}
use multi_agent_ai_analyst.Agents.Specialists.{
  retriever_agent, web_agent, data_agent, review_answer, required,
}
use multi_agent_ai_analyst.Agents.Graph.{
  failed, Budget, Dependencies, Event, Node, supervisor, retrieve, web_search, query,
  generate_answer, critic, stop, Finish, run_node, superstep, invoke, run_workflow, run_from,
  recalled, start_budget, recursion_limit_of, publish, publish_to, supervise, choose, query_with,
  keeping, read_clock,
}

abbrev pub Each : {A : Type 0} → (A → Type 0) → Option A → Type 0
Each P none = Unit
Each P (some a) = P a

-- Each service that a run calls keeps `I` true.
pub record AllPreserve {W R : Type 0} (I : W → Type 0) (deps : Dependencies W R) : Type 0 where
  pub generate_text : (prompt : Prompt) → Preserves I (deps.generate_text prompt)
  pub search_documents :
      (tenant question : Text) (limit : ℕ)
      → Preserves I (deps.search_documents tenant question limit)
  pub search_web : (question : Text) (limit : ℕ) → Preserves I (deps.search_web question limit)
  pub execute_sql : Each (λ execute. (sql : Text) → Preserves I (execute sql)) deps.execute_sql
  pub recall_memory :
      Each
        (λ recall. (question : Text) (limit : ℕ) → Preserves I (recall question limit))
        deps.recall_memory
  pub emit : Each (λ emit. (event : Event) → Preserves I (emit event)) deps.emit
  pub clock : (w : W) → I w → I (deps.clock w).1

module _ {W R : Type 0} (I : W → Type 0) (deps : Dependencies W R) (calm : AllPreserve I deps) where
  choose_route-Preserves :
      (s : AgentState) (allowed : List RouteName) (n : ℕ)
      → Preserves I (choose_route deps.lower deps.loads deps.generate_text s allowed n)
  unfolding choose_route
  choose_route-Preserves s allowed n = record {
    at = λ w h. elim (Bool-cases (leb n (length s.steps))) [
      | inl full ↦ rw full h
      | inr below ↦ rw below ((calm.generate_text _).at w h)
    ];
  }

  publish-Preserves :
      (e : Option (Event → Action W (Unit {0}))) (event : Event)
      → Each (λ emit. (event : Event) → Preserves I (emit event)) e
      → Preserves I (publish_to deps e event)
  unfolding publish_to
  publish-Preserves none event h = Preserves-pure tt
  publish-Preserves (some emit) event h = h event

  published : (event : Event) → Preserves I (publish deps event)
  unfolding publish
  published event = publish-Preserves deps.emit event calm.emit

  supervise-Preserves :
      (reason : Option Exhausted) (s : AgentState) (b : Budget)
      → Preserves I (supervise deps reason s b)
  unfolding supervise choose
  supervise-Preserves (some reason) s b = Preserves-bind _ _ (published _) (λ _. Preserves-pure _)
  supervise-Preserves none s b =
      Preserves-bind _ _ (choose_route-Preserves s _ _)
        (λ route. Preserves-bind _ _ (published _) (λ _. Preserves-pure _))

  required-Preserves :
      (t : Text) (m : Action W AgentState) → Preserves I m → Preserves I (required t m)
  unfolding required
  required-Preserves [] m h = Preserves-throw _
  required-Preserves (c ∷ t) m h = h

  keeping-Preserves :
      (b : Budget) (m : Action W AgentState) → Preserves I m → Preserves I (keeping deps b m)
  unfolding keeping
  keeping-Preserves b m h = Preserves-bind m _ h (λ s. Preserves-pure _)

  query-Preserves :
      (e : Option (Text → Action W R)) (s : AgentState)
      → Each (λ execute. (sql : Text) → Preserves I (execute sql)) e
      → Preserves I (query_with deps e s)
  unfolding query_with data_agent
  query-Preserves none s h = Preserves-pure _
  query-Preserves (some execute) s h = Preserves-bind _ _ (published _) (λ _.
      Preserves-bind _ _ (calm.generate_text _)
        (λ raw. Preserves-bind _ _ (h (strip raw)) (λ _. Preserves-pure _)))

  run_node-Preserves : (n : Node) (s : AgentState) (b : Budget) → Preserves I (run_node deps n s b)
  unfolding run_node read_clock retriever_agent web_agent review_answer
  run_node-Preserves supervisor s b =
      Preserves-bind _ _ (record { at = calm.clock }) (λ now. supervise-Preserves _ s b)
  run_node-Preserves retrieve s b = keeping-Preserves b _ (
      Preserves-bind _ _ (published _) (λ _.
        required-Preserves _ _
          (Preserves-bind _ _ (calm.search_documents _ _ _) (λ _. Preserves-pure _))))
  run_node-Preserves web_search s b = keeping-Preserves b _ (
      Preserves-bind _ _ (published _) (λ _.
        Preserves-attempt _ _ _ (calm.search_web _ _) (λ _. Preserves-pure _)
          (λ _. Preserves-lift _)))
  run_node-Preserves query s b =
      keeping-Preserves b _ (query-Preserves deps.execute_sql s calm.execute_sql)
  run_node-Preserves generate_answer s b = keeping-Preserves b _ (
      Preserves-bind _ _ (published _)
        (λ _. Preserves-bind _ _ (calm.generate_text _) (λ _. Preserves-lift _)))
  run_node-Preserves critic s b = keeping-Preserves b _ (
      Preserves-bind _ _ (Preserves-bind _ _ (calm.generate_text _) (λ _. Preserves-lift _))
        (λ _. Preserves-pure _))
  run_node-Preserves stop s b = Preserves-pure _

  superstep-Preserves :
      (n : Node) (s : AgentState) (b : Budget) → Preserves I (superstep deps n s b)
  unfolding superstep
  superstep-Preserves n s b =
      Preserves-bind _ _ (run_node-Preserves n s b)
        (λ x. Preserves-bind _ _ (Preserves-lift _) (λ _. Preserves-pure _))

  continued-Preserves :
      (fuel : ℕ)
      → ((n : Node) (s : AgentState) (b : Budget) (w : W) → I w → I (invoke deps fuel n s b w).1)
      → (r : Outcome Error (Node × AgentState × Budget)) (w : W) → I w
      → I (
          let x : Finish × W = elim r [
            | raise e ↦ (failed e, w)
            | ok (n, s, b) ↦ invoke deps fuel n s b w
          ] in
          x.1)
  continued-Preserves fuel k (raise e) w h = h
  continued-Preserves fuel k (ok (n, s, b)) w h = k n s b w h

  invoke-Preserves :
      (fuel : ℕ) (n : Node) (s : AgentState) (b : Budget) (w : W)
      → I w
      → I (invoke deps fuel n s b w).1
  unfolding invoke
  invoke-Preserves fuel stop s b w h = h
  invoke-Preserves zero supervisor s b w h = h
  invoke-Preserves zero retrieve s b w h = h
  invoke-Preserves zero web_search s b w h = h
  invoke-Preserves zero query s b w h = h
  invoke-Preserves zero generate_answer s b w h = h
  invoke-Preserves zero critic s b w h = h
  invoke-Preserves (suc fuel) n s b w h =
      continued-Preserves fuel (invoke-Preserves fuel) (superstep deps n s b w).0
        (superstep deps n s b w).1 ((superstep-Preserves n s b).at w h)

  recall-Preserves :
      (e : Option (Text → ℕ → Action W (List Text))) (s : AgentState)
      → Each (λ recall. (question : Text) (limit : ℕ) → Preserves I (recall question limit)) e
      → Preserves I (recalled deps e s)
  unfolding recalled
  recall-Preserves none s h = Preserves-pure s
  recall-Preserves (some recall) s h =
      Preserves-attempt _ _ _ (h _ _) (λ _. Preserves-pure _) (λ _. Preserves-pure _)

  invoked-Preserves :
      (r : Outcome Error AgentState) (started : ℕ) (w : W)
      → I w
      → I (
          let x : Finish × W = elim r [
            | raise e ↦ (failed e, w)
            | ok s ↦
                invoke deps (recursion_limit_of deps) supervisor s (start_budget deps started) w
          ] in
          x.1)
  invoked-Preserves (raise e) started w h = h
  invoked-Preserves (ok s) started w h =
      invoke-Preserves (recursion_limit_of deps) supervisor s (start_budget deps started) w h

  run_from-Preserves : (r : Outcome Error AgentState) (w : W) → I w → I (run_from deps r w).1
  unfolding run_from
  run_from-Preserves (raise e) w h = h
  run_from-Preserves (ok s) w h =
      let (started, w₁) = deps.clock w in
      invoked-Preserves (recalled deps deps.recall_memory s w₁).0 started
        (recalled deps deps.recall_memory s w₁).1
        ((recall-Preserves deps.recall_memory s calm.recall_memory).at w₁ (calm.clock w h))

  -- Whatever every service that a run calls keeps true of the state, the run keeps true of it,
  -- whether it returns or fails.
  pub run_workflow-Preserves : (question : Text) (w : W) → I w → I (run_workflow deps question w).1
  unfolding run_workflow
  run_workflow-Preserves question = run_from-Preserves (new_agent_state question)

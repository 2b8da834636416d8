-- ===== src/Agents/Graph.antt =====
-- agents/workflow.py: the nodes of the graph, its edges, and the bounded run.
pub mod Relation
pub mod Nodes
pub mod Steps
pub mod Termination
pub mod Grounding
pub mod Limits
pub mod Provenance
pub mod Runs
pub mod Effects
use multi_agent_ai_analyst.Prelude.{
  ℕ, zero, suc, ◌+◌, ◌-◌, ◌*◌, ◌≡◌, Bool, true, false, not, ◌&&◌, List, [], ◌∷◌, ◌++◌, Option, none,
  some, Outcome, ok, raise, max, length, ltb, leb, if◌then◌else◌,
}
use multi_agent_ai_analyst.Prelude.Text.{Text, strip}
use multi_agent_ai_analyst.Json.{Json}
use multi_agent_ai_analyst.Agents.State.{
  RouteName, retriever, web, analytics, finish, Plan, empty, to, revise, Exhausted, tool_calls,
  deadline, Step, supervisor_to, supervisor_stop, data_unavailable, generate, critic_approved,
  critic_revise, AgentState, Error, runtime_error, other_error, new_agent_state,
}
use multi_agent_ai_analyst.Agents.Action.{Action, pure, throw, lift, attempt, ◌>>=◌, ◌>>◌}
use multi_agent_ai_analyst.Agents.Supervisor.{Prompt, answer_prompt, choose_route}
use multi_agent_ai_analyst.Agents.Specialists.{
  SearchResult, WebSearchResult, Verdict, evidence, retriever_agent, web_agent, data_agent,
  review_answer,
}

-- `_RunBudget`. Times are readings of a clock that does not run backwards, in one unit.
pub record Budget : Type 0 where
  pub max_tool_calls : ℕ
  pub deadline_seconds : Option ℕ
  pub tool_calls_made : ℕ
  pub started : ℕ

unfoldable pub record_tool_call : Budget → Budget
record_tool_call b = record b { tool_calls_made = b.tool_calls_made + 1 }

past_deadline : Option ℕ → ℕ → Bool
past_deadline none elapsed = false
past_deadline (some limit) elapsed = leb limit elapsed

unfoldable pub exhausted_reason : Budget → (now : ℕ) → Option Exhausted
unfolding past_deadline
exhausted_reason b now =
    if leb b.max_tool_calls b.tool_calls_made
    then some tool_calls
    else if past_deadline b.deadline_seconds (now - b.started)
    then some deadline
    else none

-- What `publish` hands to the event sink.
pub data Event : Type 0 where
  budget_exhausted : Exhausted → Event
  routing : RouteName → Event
  retrieving retrieving_web querying generating : Event

-- `W` is the state of all outside services, `R` the result of a query. `clock` is `monotonic`.
pub record Dependencies (W R : Type 0) : Type 0 where
  pub generate_text : Prompt → Action W Text
  pub search_documents : Text → Text → ℕ → Action W (List SearchResult)
  pub search_web : Text → ℕ → Action W (List WebSearchResult)
  pub execute_sql : Option (Text → Action W R)
  pub tenant_id : Text
  pub max_steps : ℕ
  pub max_revisions : ℕ
  pub web_enabled : Bool
  pub recall_memory : Option (Text → ℕ → Action W (List Text))
  pub max_tool_calls : ℕ
  pub deadline_seconds : Option ℕ
  pub emit : Option (Event → Action W (Unit {0}))
  pub clock : W → ℕ × W
  pub lower : Text → Text
  pub loads : Text → Option Json
  pub dump : R → Text

-- The names of the nodes, and `END`.
pub data Node : Type 0 where
  supervisor retrieve web_search query generate_answer critic stop : Node

-- The edges: the conditional ones read `plan`, and a plan that they do not name is an error.
unfoldable pub after : Node → Plan → Outcome Error Node
after supervisor (to retriever) = ok retrieve
after supervisor (to web) = ok web_search
after supervisor (to analytics) = ok query
after supervisor (to finish) = ok generate_answer
after retrieve p = ok supervisor
after web_search p = ok supervisor
after query p = ok supervisor
after generate_answer p = ok critic
after critic (to finish) = ok stop
after critic revise = ok supervisor
after stop p = ok stop
after n p = raise other_error

-- The graph raises `GraphRecursionError` when its supersteps are used up before `END`.
pub data Finish : Type 0 where
  finished : AgentState → Finish
  failed : Error → Finish
  recursion_limit : Finish

abbrev pub is_tool : RouteName → Bool
is_tool finish = false
is_tool _ = true

-- `allowed` of the supervisor
unfoldable pub allowed_routes : Bool → Bool → List RouteName
allowed_routes web_enabled sql_enabled =
    retriever
    ∷ ((if web_enabled then web ∷ [] else []) ++ (if sql_enabled then analytics ∷ [] else []))

abbrev pub is_some {ℓ} : {A : Type ℓ} → Option A → Bool
is_some none = false
is_some (some a) = true

unfoldable pub stopped : AgentState → Exhausted → AgentState
stopped state reason = record state {
  plan = to finish;
  steps = state.steps ++ supervisor_stop reason ∷ [];
}

unfoldable pub sent : AgentState → RouteName → AgentState
sent state route = record state { plan = to route; steps = state.steps ++ supervisor_to route ∷ [] }

unfoldable pub charged : Budget → RouteName → Budget
unfolding record_tool_call
charged budget route = if is_tool route then record_tool_call budget else budget

answered : AgentState → Text → Outcome Error AgentState
answered state [] = raise runtime_error
answered state (c ∷ answer) =
    ok (record state { answer = c ∷ answer; steps = state.steps ++ generate ∷ [] })

unfoldable pub judged : ℕ → AgentState → Verdict → AgentState
judged max_revisions state verdict =
    let should_revise = not verdict.passed && ltb state.revisions max_revisions in
    record state {
      plan = if should_revise then revise else to finish;
      revisions = state.revisions + (if verdict.passed then 0 else 1);
      steps = state.steps ++ (if verdict.passed then critic_approved else critic_revise) ∷ [];
    }

module _ {W R : Type 0} (deps : Dependencies W R) where
  publish_to : Option (Event → Action W (Unit {0})) → Event → Action W (Unit {0})
  publish_to none event = pure tt
  publish_to (some emit) event = emit event

  publish : Event → Action W (Unit {0})
  unfolding publish_to
  publish event = publish_to deps.emit event

  -- The supervisor below its budget.
  choose : AgentState → Budget → Action W (AgentState × Budget)
  unfolding publish
  choose state budget = do
    route ←
        choose_route deps.lower deps.loads deps.generate_text state
          (allowed_routes deps.web_enabled (is_some deps.execute_sql)) deps.max_steps
    publish (routing route)
    pure (sent state route, charged budget route)

  supervise : Option Exhausted → AgentState → Budget → Action W (AgentState × Budget)
  unfolding choose
  supervise (some reason) state budget = do
    publish (budget_exhausted reason)
    pure (stopped state reason, budget)
  supervise none state budget = choose state budget

  read_clock : Action W ℕ
  read_clock w = let (now, w') = deps.clock w in (ok now, w')

  query_with : Option (Text → Action W R) → AgentState → Action W AgentState
  unfolding publish
  query_with none state = pure (record state { steps = state.steps ++ data_unavailable ∷ [] })
  query_with (some execute_sql) state =
      publish querying >> data_agent deps.dump state deps.generate_text execute_sql

  -- An evidence agent leaves the budget alone.
  keeping : Budget → Action W AgentState → Action W (AgentState × Budget)
  keeping budget m = m >>= λ state. pure (state, budget)

  unfoldable pub run_node : Node → AgentState → Budget → Action W (AgentState × Budget)
  unfolding publish supervise query_with keeping answered read_clock
  run_node supervisor state budget =
      read_clock >>= λ now. supervise (exhausted_reason budget now) state budget
  run_node retrieve state budget =
      keeping budget
        (publish retrieving >> retriever_agent state deps.tenant_id deps.search_documents)
  run_node web_search state budget =
      keeping budget (publish retrieving_web >> web_agent state deps.search_web)
  run_node query state budget = keeping budget (query_with deps.execute_sql state)
  run_node generate_answer state budget = keeping budget (do
    publish generating
    raw ← deps.generate_text (answer_prompt state.question (evidence state))
    lift (answered state (strip raw)))
  run_node critic state budget = keeping budget (
      review_answer deps.loads state deps.generate_text >>= λ verdict.
      pure (judged deps.max_revisions state verdict))
  run_node stop state budget = pure (state, budget)

  -- One superstep: the node runs, its update is merged, and the edge is taken.
  unfoldable pub superstep : Node → AgentState → Budget → Action W (Node × AgentState × Budget)
  superstep node state budget = run_node node state budget >>= λ (state', budget').
      lift (after node state'.plan) >>= λ node'. pure (node', state', budget')

  -- `graph.invoke`, with the supersteps that are left.
  unfoldable pub invoke : ℕ → Node → AgentState → Budget → W → Finish × W
  invoke fuel stop state budget w = (finished state, w)
  invoke zero node state budget w = (recursion_limit, w)
  invoke (suc fuel) node state budget w =
      let (r, w') = superstep node state budget w in
      elim r [
        | raise e ↦ (failed e, w')
        | ok (node', state', budget') ↦ invoke fuel node' state' budget' w'
      ]

  unfoldable pub start_budget : (started : ℕ) → Budget
  start_budget started = record {
    max_tool_calls = deps.max_tool_calls;
    deadline_seconds = deps.deadline_seconds;
    tool_calls_made = 0;
    started = started;
  }

  -- A recall that raises leaves the memory empty.
  recalled : Option (Text → ℕ → Action W (List Text)) → AgentState → Action W AgentState
  recalled none state = pure state
  recalled (some recall) state =
      attempt (recall state.question 3) (λ memory. pure (record state { memory = memory }))
        (λ _. pure (record state { memory = [] }))

  unfoldable pub recursion_limit_of : ℕ
  recursion_limit_of = max 8 (deps.max_steps * 4)

  run_from : Outcome Error AgentState → W → Finish × W
  unfolding recalled read_clock
  run_from (raise e) w = (failed e, w)
  run_from (ok state) w =
      let (started, w₁) = deps.clock w in
      let (r, w₂) = recalled deps.recall_memory state w₁ in
      elim r [
        | raise e ↦ (failed e, w₂)
        | ok state' ↦ invoke recursion_limit_of supervisor state' (start_budget started) w₂
      ]

  unfoldable pub run_workflow : (question : Text) → W → Finish × W
  unfolding run_from
  run_workflow question = run_from (new_agent_state question)

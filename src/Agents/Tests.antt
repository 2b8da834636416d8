-- ===== src/Agents/Tests.antt =====
-- Runs of the graph over concrete services.
use multi_agent_ai_analyst.Prelude.{
  ◌<◌, ◌↔◌, ◌⊎◌, any, filter, ℕ, ◌+◌, ◌≡◌, ◌≢◌, refl, Bool, true, false, List, [], ◌∷◌, Option,
  none, some, ok, raise, arith,
}
use multi_agent_ai_analyst.Prelude.Text.{
  Text, codes, strip, split, join, decimal, contains, text_eq,
}
use multi_agent_ai_analyst.Json.{Json, boolean, str, object, field, end, get_field, json_object}
use multi_agent_ai_analyst.Agents.State.{
  AgentState, Step, Plan, provider_error, other_error, new_agent_state, retriever, finish,
}
use multi_agent_ai_analyst.Agents.Action.{Action, ◌>>=◌}
use multi_agent_ai_analyst.Agents.Supervisor.{
  Prompt, choose_route, fallback_route, routed, offer, parse_route, sorted, member, has_gathered,
}
use multi_agent_ai_analyst.Agents.Supervisor.Routing.{
  reply_to, choose_route-allowed, choose_route-finish, choose_route-raise_iff,
}
use multi_agent_ai_analyst.Agents.Specialists.{
  SearchResult, add_documents, add_web, add_sql, evidence, retriever_agent, web_agent, data_agent,
  review_answer, read_verdict,
}
use multi_agent_ai_analyst.Agents.Graph.{
  Dependencies, Finish, finished, recursion_limit, run_workflow, run_node, superstep, invoke,
  exhausted_reason, after, allowed_routes, stopped, sent, charged, judged, start_budget,
  recursion_limit_of,
}
use multi_agent_ai_analyst.Agents.Graph.Limits.{KeepsLimits}
use multi_agent_ai_analyst.Agents.Graph.Grounding.{IsGrounded}
use multi_agent_ai_analyst.Agents.Graph.Runs.{
  run_workflow_terminates, run_workflow-KeepsLimits, run_workflow-IsGrounded,
}

program : Unit {0}
unfolding run_workflow new_agent_state strip split join decimal contains text_eq get_field
    json_object ◌>>=◌ choose_route fallback_route routed offer parse_route sorted member
    has_gathered add_documents add_web add_sql evidence retriever_agent web_agent data_agent
    review_answer read_verdict run_node superstep invoke exhausted_reason after allowed_routes
    stopped sent charged judged start_budget recursion_limit_of any filter
program = tt

-- A model that always names `finish`, and whose reviews have the verdict `passed`.
abbrev reply : Bool → Text → Option Json
reply passed _ = some (
    object (
      field (codes "next") (str (codes "finish"))
        (field (codes "ok") (boolean passed) (field (codes "reason") (str (codes "fine")) end))))

abbrev one_result : SearchResult
one_result = record {
  document_id = codes "d1";
  filename = codes "a.txt";
  chunk_index = 0;
  content = codes "Revenue was 5.";
  score = codes "0.912";
}

-- The services of a workspace with one document; the state counts the calls of the model.
abbrev services : Bool → ℕ → ℕ → Dependencies ℕ (Unit {0})
services passed max_steps max_revisions = record {
  generate_text = λ prompt w. (ok (codes "{}"), w + 1);
  search_documents = λ tenant question limit w. (ok (one_result ∷ []), w);
  search_web = λ question limit w. (ok [], w);
  execute_sql = none;
  tenant_id = codes "t";
  max_steps = max_steps;
  max_revisions = max_revisions;
  web_enabled = false;
  recall_memory = none;
  max_tool_calls = 5;
  deadline_seconds = some 60;
  emit = none;
  clock = λ w. (0, w);
  lower = λ t. t;
  loads = reply passed;
  dump = λ r. [];
}

abbrev steps_of : Finish → List Step
steps_of (finished s) = s.steps
steps_of _ = []

-- The model names `finish` at once, and the run retrieves all the same.
retrieves_first :
    steps_of (run_workflow (services true 8 1) (codes " How? ") 0).0
    ≡ Step.supervisor_to retriever
      ∷ Step.retriever
      ∷ Step.supervisor_to finish
      ∷ Step.generate
      ∷ Step.critic_approved
      ∷ []
unfolding program
retrieves_first = refl

-- One step and three revisions are more than the recursion limit of 8 allows.
runs_out_of_supersteps : (run_workflow (services false 1 3) (codes "How?") 0).0 ≡ recursion_limit
unfolding program
runs_out_of_supersteps = refl

run_workflow_terminates_example :
    (run_workflow (services false 8 1) (codes "How?") 0).0 ≢ recursion_limit
run_workflow_terminates_example =
    run_workflow_terminates (services false 8 1) (omega arith) (codes "How?") 0

run_workflow-KeepsLimits_example :
    KeepsLimits (services false 8 1) (run_workflow (services false 8 1) (codes "How?") 0).0
run_workflow-KeepsLimits_example = run_workflow-KeepsLimits (services false 8 1) (codes "How?") 0

run_workflow-IsGrounded_example :
    IsGrounded (services true 8 1) (run_workflow (services true 8 1) (codes "How?") 0).0
run_workflow-IsGrounded_example =
    run_workflow-IsGrounded (services true 8 1) (omega arith) (codes "How?") 0

abbrev gathering : AgentState
gathering = record {
  question = codes "q";
  plan = Plan.empty;
  documents = [];
  sql_result = none;
  code_result = none;
  answer = [];
  steps = Step.retriever ∷ [];
  revisions = 0;
  citations = [];
  memory = [];
}

finishes :
    (choose_route
      (λ t. t)
      (reply true)
      (services true 8 1).generate_text
      gathering
      (retriever ∷ [])
      8
      0).0
    ≡ ok finish
unfolding program
finishes = refl

choose_route-finish_example : has_gathered gathering.steps ≡ true
unfolding member any
choose_route-finish_example =
    choose_route-finish (λ t. t) (reply true) (services true 8 1).generate_text gathering
      (retriever ∷ []) 8 0 refl refl (omega arith) finishes

choose_route-allowed_example : (finish ≡ finish) ⊎ (member finish (retriever ∷ []) ≡ true)
choose_route-allowed_example =
    choose_route-allowed (λ t. t) (reply true) (services true 8 1).generate_text gathering
      (retriever ∷ []) 8 0 finishes

abbrev refusing : Prompt → Action ℕ Text
refusing prompt w = (raise (provider_error true), w)

choose_route-raise_iff_example :
    ((choose_route (λ t. t) (reply true) refusing gathering (retriever ∷ []) 8 0).0
      ≡ raise (provider_error true))
    ↔ ((1 < 8)
        × ((provider_error true ≡ provider_error true) ⊎ (provider_error true ≡ other_error))
        × (reply_to (λ t. t) (reply true) refusing gathering (retriever ∷ []) 0
            ≡ raise (provider_error true)))
choose_route-raise_iff_example =
    choose_route-raise_iff (λ t. t) (reply true) refusing gathering (retriever ∷ []) 8 0
      (provider_error true)

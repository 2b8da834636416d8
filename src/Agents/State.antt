-- ===== src/Agents/State.antt =====
-- agents/state.py: the state that the nodes of the graph pass on.
use multi_agent_ai_analyst.Prelude.{ℕ, Bool, List, [], ◌∷◌, Option, none, Outcome, ok, raise}
use multi_agent_ai_analyst.Prelude.Text.{Text, strip}

-- `Literal["document", "web", "analytics"]`
pub data CitationKind : Type 0 where
  document web analytics : CitationKind

pub record Citation : Type 0 where
  pub id : Text
  pub kind : CitationKind
  pub title : Text
  pub excerpt : Text
  pub url : Option Text
  pub document_id : Option Text
  pub chunk_index : Option ℕ

-- `RouteName`; `analytics` is the name "data".
pub data RouteName : Type 0 where
  retriever web analytics finish : RouteName

-- What `plan` holds: "", a route, or "revise".
pub data Plan : Type 0 where
  empty : Plan
  to : RouteName → Plan
  revise : Plan

-- Why a run's budget is used up.
pub data Exhausted : Type 0 where
  tool_calls deadline : Exhausted

-- The entries of `steps`. `supervisor_to r` is "supervisor->r", `supervisor_stop e` is
-- "supervisor->finish:e", and `data_sql` is "data(sql)".
pub data Step : Type 0 where
  supervisor_to : RouteName → Step
  supervisor_stop : Exhausted → Step
  retriever web web_unavailable data_sql data_unavailable generate : Step
  critic_approved critic_revise : Step

pub record AgentState : Type 0 where
  pub question : Text
  pub plan : Plan
  pub documents : List Text
  pub sql_result : Option Text
  pub code_result : Option Text
  pub answer : Text
  pub steps : List Step
  pub revisions : ℕ
  pub citations : List Citation
  pub memory : List Text

-- The exceptions that cross the graph: `ModelProviderError` with its `permanent`, and the built-in
-- ones that the program tells apart. `search_unavailable` is `WebSearchUnavailable`, and any other
-- subclass of `ValueError` or `RuntimeError` stands as that class.
pub data Error : Type 0 where
  provider_error : (permanent : Bool) → Error
  search_unavailable runtime_error value_error type_error other_error : Error

unfoldable pub empty_state : Text → AgentState
empty_state question = record {
  question = question;
  plan = empty;
  documents = [];
  sql_result = none;
  code_result = none;
  answer = [];
  steps = [];
  revisions = 0;
  citations = [];
  memory = [];
}

unfoldable pub state_of : Text → Outcome Error AgentState
unfolding empty_state
state_of [] = raise value_error
state_of (c ∷ question) = ok (empty_state (c ∷ question))

unfoldable pub new_agent_state : Text → Outcome Error AgentState
unfolding state_of
new_agent_state question = state_of (strip question)

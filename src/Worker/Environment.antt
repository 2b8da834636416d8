-- ===== src/Worker/Environment.antt =====
-- What a worker works with: its queue, its services, its settings, and the state of them all.
use multi_agent_ai_analyst.Prelude.{ℕ, Bool, true, false, List, [], ◌∷◌, Option}
use multi_agent_ai_analyst.Prelude.Text.{Text, codes}
use multi_agent_ai_analyst.Json.{Json}
use multi_agent_ai_analyst.Database.{Table}
use multi_agent_ai_analyst.Agents.State.{
  RouteName, retriever, web, analytics, finish, Exhausted, tool_calls, deadline, Error,
  provider_error,
}
use multi_agent_ai_analyst.Agents.Action.{Action}
use multi_agent_ai_analyst.Agents.Supervisor.{Prompt}
use multi_agent_ai_analyst.Agents.Specialists.{SearchResult, WebSearchResult}
use multi_agent_ai_analyst.Agents.Graph.{
  Event, budget_exhausted, routing, retrieving, retrieving_web, querying, generating,
}
use multi_agent_ai_analyst.Queue.Jobs.{JobType, Job}
use multi_agent_ai_analyst.RunStore.Rows.{Ids, Tables, Db}
use multi_agent_ai_analyst.DocumentStore
use multi_agent_ai_analyst.DocumentStore.{
  Document, DocumentStatus, failure_extraction, failure_indexing,
}

-- `JobQueue`. A method raises when the queue is out of reach.
pub record JobQueue : Type 1 where
  pub State : Type 0
  pub enqueue : (id : ℕ) → JobType → List (Text × Text) → Action State (Unit {0})
  pub claim : Action State (Option Job)
  pub ack : Job → Action State (Unit {0})
  pub retry : Job → Action State Bool
  pub recover_expired : Action State (Unit {0})

-- What `extract_document_text` makes of a file: its text, the refusal that is a
-- `DocumentExtractionError`, or another exception.
pub data Extraction : Type 0 where
  extracted : Text → Extraction
  rejected : Extraction
  broken : Error → Extraction

-- The services that a job is run with. `build` constructs the clients, which may raise.
pub record Services (S R : Type 0) : Type 0 where
  pub utc_now : S → ℕ × S
  pub uuid4 : S → ℕ × S
  pub monotonic : S → ℕ × S
  pub build : Action S (Unit {0})
  pub generate : Prompt → Action S Text
  pub search_documents : Text → Text → ℕ → Action S (List SearchResult)
  pub search_web : Text → ℕ → Action S (List WebSearchResult)
  pub execute_sql : Text → Action S R
  pub recall : Text → ℕ → (tenant_id : Text) → Action S (List Text)
  pub remember : (tenant_id question answer : Text) → Action S (Unit {0})
  pub get_object : Text → Action S (List ℕ)
  pub extract : (filename : Text) → List ℕ → Extraction
  pub ingest_text : (tenant_id document_id filename content : Text) → Action S ℕ
  pub lower : Text → Text
  pub loads : Text → Option Json
  pub dump : R → Text

pub record Settings : Type 0 where
  pub max_agent_steps : ℕ
  pub max_agent_revisions : ℕ
  pub enable_web_search : Bool
  pub has_tavily_api_key : Bool
  pub enable_sql_agent : Bool
  pub max_tool_calls : ℕ
  pub run_timeout_seconds : ℕ
  pub job_visibility_timeout_seconds : ℕ

pub record Site (S R : Type 0) : Type 1 where
  pub tables : Tables
  pub documents : Table Document
  pub queue : JobQueue
  pub services : Services S R
  pub settings : Settings
  pub ids : Ids

pub record World {S R : Type 0} (site : Site S R) : Type 0 where
  pub services : S
  pub db : Db site.tables
  pub documents : site.documents.State
  pub queue : site.queue.State

abbrev pub exhausted_name : Exhausted → Text
exhausted_name tool_calls = codes "tool_calls"
exhausted_name deadline = codes "deadline"

abbrev pub route_name : RouteName → Text
route_name retriever = codes "retriever"
route_name web = codes "web"
route_name analytics = codes "data"
route_name finish = codes "finish"

-- The kind and the data of a progress event.
abbrev pub event_kind : Event → Text
event_kind (budget_exhausted reason) = codes "budget_exhausted"
event_kind (routing route) = codes "routing"
event_kind retrieving = codes "retrieving"
event_kind retrieving_web = codes "retrieving"
event_kind querying = codes "querying"
event_kind generating = codes "generating"

abbrev pub event_data : Event → List (Text × Text)
event_data (budget_exhausted reason) = (codes "reason", exhausted_name reason) ∷ []
event_data (routing route) = (codes "next", route_name route) ∷ []
event_data retrieving_web = (codes "source", codes "web") ∷ []
event_data _ = []

abbrev pub is_settled : DocumentStatus → Bool
is_settled DocumentStore.ready = true
is_settled DocumentStore.deleted = true
is_settled _ = false

-- `isinstance(error, ModelProviderError) and error.permanent`
abbrev pub is_refusal : Error → Bool
is_refusal (provider_error permanent) = permanent
is_refusal _ = false

-- ===== src/RunStore/Rows.antt =====
-- The rows of db/models.py that runs are stored in, and the tables of them.
use multi_agent_ai_analyst.Prelude.{ℕ, Bool, true, false, List, Option}
use multi_agent_ai_analyst.Prelude.Text.{Text}
use multi_agent_ai_analyst.Database.{Table}
use multi_agent_ai_analyst.Agents.State.{CitationKind}

-- `RUN_STATUSES`
pub data RunStatus : Type 0 where
  queued running completed failed cancelled : RunStatus

-- `RUN_TERMINAL_STATUSES`
abbrev pub is_terminal : RunStatus → Bool
is_terminal completed = true
is_terminal failed = true
is_terminal cancelled = true
is_terminal _ = false

-- `str(uuid)` and `UUID(text)`, which is `none` where it raises a `ValueError`.
pub record Ids : Type 0 where
  pub print : ℕ → Text
  pub parse : Text → Option ℕ

-- Ids are UUIDs, which are only compared, and times are numbers.
pub record Run : Type 0 where
  pub id : ℕ
  pub organization_id : ℕ
  pub created_by_user_id : Option ℕ
  pub question : Text
  pub status : RunStatus
  pub answer : Option Text
  pub error : Option Text
  pub attempt_count : ℕ
  pub started_at : Option ℕ
  pub completed_at : Option ℕ
  pub created_at : ℕ
  pub updated_at : ℕ

-- `data` of an event is its JSON object, as the text of each value under its key.
pub record RunEvent : Type 0 where
  pub run_id : ℕ
  pub organization_id : ℕ
  pub sequence : ℕ
  pub event_type : Text
  pub payload : List (Text × Text)

pub record RunCitation : Type 0 where
  pub run_id : ℕ
  pub organization_id : ℕ
  pub position : ℕ
  pub reference : Text
  pub kind : CitationKind
  pub title : Text
  pub excerpt : Text
  pub url : Option Text
  pub document_id : Option ℕ
  pub chunk_index : Option ℕ

pub record Feedback : Type 0 where
  pub run_id : ℕ
  pub organization_id : ℕ
  pub user_id : Option ℕ
  pub approved : Bool  -- `rating`, which is 1 or -1
  pub comment : Option Text

pub record DailyUsage : Type 0 where
  pub organization_id : ℕ
  pub usage_date : ℕ
  pub run_count : ℕ

pub record Tables : Type 1 where
  pub runs : Table Run
  pub events : Table RunEvent
  pub citations : Table RunCitation
  pub feedback : Table Feedback
  pub usage : Table DailyUsage

pub record Db (t : Tables) : Type 0 where
  pub runs : t.runs.State
  pub events : t.events.State
  pub citations : t.citations.State
  pub feedback : t.feedback.State
  pub usage : t.usage.State

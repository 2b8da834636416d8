-- ===== src/Queue/Jobs.antt =====
-- The jobs of services/queue.py.
use multi_agent_ai_analyst.Prelude.{ℕ, ◌+◌, List}
use multi_agent_ai_analyst.Prelude.Text.{Text}

-- `JOB_INGEST_DOCUMENT`, `JOB_EXECUTE_RUN`, or a type that no handler knows.
pub data JobType : Type 0 where
  ingest_document execute_run : JobType
  unknown : Text → JobType

-- A job. Its id is a UUID, which is only compared. `payload` is the JSON object, as the text of each
-- value under its key.
pub record Job : Type 0 where
  pub id : ℕ
  pub type : JobType
  pub payload : List (Text × Text)
  pub attempts : ℕ

-- `Job(id=…, type=…, payload=…)`
unfoldable pub new_job : ℕ → JobType → List (Text × Text) → Job
new_job id type payload = record { id = id; type = type; payload = payload; attempts = 0 }

-- `replace(job, attempts=job.attempts + 1)`
unfoldable pub attempted : Job → Job
attempted job = record job { attempts = job.attempts + 1 }

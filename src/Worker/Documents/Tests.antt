-- ===== src/Worker/Documents/Tests.antt =====
-- A worker that is given an uploaded document, with parsers and a vector store of a few lines.
use multi_agent_ai_analyst.Agents.Action.{◌>>=◌, attempt}
use multi_agent_ai_analyst.Prelude.{
  filter, ℕ, ◌≡◌, refl, false, List, [], ◌∷◌, ◌++◌, map, Option, none, some, ok, raise, length,
}
use multi_agent_ai_analyst.Prelude.Text.{split, text_eq, Text, codes}
use multi_agent_ai_analyst.Database.{plain_table}
use multi_agent_ai_analyst.Json.{null}
use multi_agent_ai_analyst.Queue.Jobs.{Job, ingest_document}
use multi_agent_ai_analyst.RunStore.Rows.{Run, RunEvent, RunCitation, Feedback, DailyUsage}
use multi_agent_ai_analyst.DocumentStore
use multi_agent_ai_analyst.DocumentStore.{Document, DocumentStatus}
use multi_agent_ai_analyst.Extraction.Sources.{bad_zip_file, ended, piece, Parsers}
use multi_agent_ai_analyst.Ingestion.{Service, VectorPoint}
use multi_agent_ai_analyst.Worker.Environment.{Services, Site, World, rejected}
use multi_agent_ai_analyst.Worker.Queues.{memory_queue}
use multi_agent_ai_analyst.Worker.Documents.{with_documents}
use multi_agent_ai_analyst.Worker.{handle}

abbrev Store : Type 0
Store = List (VectorPoint ℕ)

abbrev parsers : Parsers
parsers = record {
  decode = ok;
  loads = λ t. ok null;
  dumps = λ v. codes "null";
  reader = λ delimiter t. ended;
  feed = λ t. piece t ended;
  infolist = λ content. raise bad_zip_file;
  pdf_reader = λ content. raise bad_zip_file;
  word_document = λ content. raise bad_zip_file;
  load_workbook = λ content. raise bad_zip_file;
}

abbrev vectors : Service ℕ Store
vectors = record {
  embed = λ texts stored. (ok (map (λ t. length t ∷ []) texts), stored);
  upsert = λ points stored. (ok tt, stored ++ points);
  search = λ tenant_id vector limit stored. (ok [], stored);
  uuid5 = length;
  chunk_size = 4;
  chunk_overlap = 1;
  embedding_dimensions = 1;
}

-- The object that a key names is the key itself.
abbrev clients : Services Store (Unit {0})
clients = record {
  utc_now = λ s. (50, s);
  uuid4 = λ s. (9, s);
  monotonic = λ s. (1, s);
  build = λ s. (ok tt, s);
  generate = λ prompt s. (ok [], s);
  search_documents = λ tenant question limit s. (ok [], s);
  search_web = λ question limit s. (ok [], s);
  execute_sql = λ sql s. (ok tt, s);
  recall = λ question limit tenant s. (ok [], s);
  remember = λ tenant question answer s. (ok tt, s);
  get_object = λ key s. (ok key, s);
  extract = λ filename raw. rejected;
  ingest_text = λ tenant document filename content s. (ok 0, s);
  lower = λ t. t;
  loads = λ t. none;
  dump = λ r. [];
}

abbrev site : Site Store (Unit {0})
site = record {
  tables = record {
    runs = plain_table Run;
    events = plain_table RunEvent;
    citations = plain_table RunCitation;
    feedback = plain_table Feedback;
    usage = plain_table DailyUsage;
  };
  documents = plain_table Document;
  queue = memory_queue 3;
  services =
      with_documents parsers
        (record {
          max_extracted_characters = 40;
          max_archive_members = 2;
          max_archive_expansion_ratio = 120;
        })
        vectors clients;
  settings = record {
    max_agent_steps = 8;
    max_agent_revisions = 1;
    enable_web_search = false;
    has_tavily_api_key = false;
    enable_sql_agent = false;
    max_tool_calls = 5;
    run_timeout_seconds = 60;
    job_visibility_timeout_seconds = 900;
  };
  ids = record { print = λ i. i ∷ []; parse = λ t. elim t [ [] ↦ none | c ∷ t ↦ some c ] };
}

abbrev document : Text → Text → (chunks : ℕ) → DocumentStatus → Option Text → Document
document filename content chunks status failure_reason = record {
  id = 65;
  organization_id = 66;
  uploaded_by_user_id = none;
  filename = filename;
  content_type = codes "text/html";
  byte_size = 6;
  content_hash = [];
  object_key = content;
  status = status;
  chunk_count = chunks;
  failure_reason = failure_reason;
  created_at = 10;
  updated_at = 10;
}

abbrev job : Job
job = record {
  id = 7;
  type = ingest_document;
  payload = (codes "document_id", 65 ∷ []) ∷ [];
  attempts = 0;
}

abbrev world : Document → World site
world d = record {
  services = [];
  db = record { runs = []; events = []; citations = []; feedback = []; usage = [] };
  documents = d ∷ [];
  queue = record { pending = []; dead = [] };
}

abbrev handled : (filename content : Text) → World site
handled filename content =
    (handle site job (world (document filename content 0 DocumentStore.pending none))).1

abbrev statuses : List Document → List (DocumentStatus × ℕ)
statuses = map (λ d. (d.status, d.chunk_count))

-- The text is stored in two chunks of the tenant, and the row says so.
html_is_ready :
    statuses (handled (codes "a.html") (codes " aaa bb ")).documents ≡ (DocumentStore.ready, 2) ∷ []
unfolding handle attempt ◌>>=◌ text_eq filter with_documents split DocumentStore.mark_ready
    DocumentStore.mark_processing
html_is_ready = refl

html_is_stored :
    map {B = Text × Text}
      (λ p. (p.tenant_id, p.content))
      (handled (codes "a.html") (codes " aaa bb ")).services
    ≡ (codes "B", codes "aaa") ∷ (codes "B", codes "bb") ∷ []
unfolding handle attempt ◌>>=◌ text_eq filter with_documents split
html_is_stored = refl

-- A file that is no archive is refused at once.
docx_has_failed :
    statuses (handled (codes "a.docx") (codes " aaa bb ")).documents
    ≡ (DocumentStore.failed, 0) ∷ []
unfolding handle attempt ◌>>=◌ text_eq filter with_documents DocumentStore.mark_failed
    DocumentStore.mark_processing
docx_has_failed = refl

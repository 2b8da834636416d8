-- ===== src/Worker/Documents.antt =====
-- worker.py: the extraction and the ingestion that `_ingest_document` calls, with their settings.
mod Tests
use multi_agent_ai_analyst.Prelude.{ℕ, Outcome, ok, raise}
use multi_agent_ai_analyst.Prelude.Text.{Text}
use multi_agent_ai_analyst.Agents.State.{value_error, other_error}
use multi_agent_ai_analyst.Extraction.Sources.{
  Failure, document_error, bad_zip_file, other_error as unexpected, Parsers,
}
use multi_agent_ai_analyst.Extraction.{extract_document_text}
use multi_agent_ai_analyst.Ingestion.{Service, ingest_text}
use multi_agent_ai_analyst.Worker.Environment.{Extraction, extracted, rejected, broken, Services}

-- The settings of an extraction
pub record Ceilings : Type 0 where
  pub max_extracted_characters : ℕ
  pub max_archive_members : ℕ
  pub max_archive_expansion_ratio : ℕ

-- `except DocumentExtractionError`; another exception goes on to the handler of the job.
abbrev pub extraction_of : Outcome Failure Text → Extraction
extraction_of (ok text) = extracted text
extraction_of (raise (document_error message)) = rejected
extraction_of (raise bad_zip_file) = broken other_error
extraction_of (raise (unexpected n)) = broken other_error

-- The services of the worker, with the code of the repository for documents.
unfoldable pub with_documents :
    {V S R : Type 0} → Parsers → Ceilings → Service V S → Services S R → Services S R
unfolding extract_document_text ingest_text
with_documents parsers ceilings service services = record services {
  extract = λ filename raw. extraction_of (
      extract_document_text parsers services.lower filename raw ceilings.max_extracted_characters
        ceilings.max_archive_members ceilings.max_archive_expansion_ratio);
  ingest_text = ingest_text service;
}

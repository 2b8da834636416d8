-- ===== src/DocumentStore.antt =====
-- services/document_store.py: the rows of uploaded documents and the lifecycle of their indexing.
use multi_agent_ai_analyst.Prelude.{
  ℕ, Bool, true, false, not, ◌&&◌, List, Option, none, some, first, filter, take, ltb, ◌==◌,
}
use multi_agent_ai_analyst.Prelude.Text.{Text, codes}
use multi_agent_ai_analyst.Database.{Table}
use multi_agent_ai_analyst.Database.Queries.{order_by_desc}

-- `DOCUMENT_STATUSES`
pub data DocumentStatus : Type 0 where
  pending processing ready failed deleted : DocumentStatus

pub record Document : Type 0 where
  pub id : ℕ
  pub organization_id : ℕ
  pub uploaded_by_user_id : Option ℕ
  pub filename : Text
  pub content_type : Text
  pub byte_size : ℕ
  pub content_hash : Text
  pub object_key : Text
  pub status : DocumentStatus
  pub chunk_count : ℕ
  pub failure_reason : Option Text
  pub created_at : ℕ
  pub updated_at : ℕ

abbrev pub failure_extraction : Text
failure_extraction = codes "extraction_failed"

abbrev pub failure_indexing : Text
failure_indexing = codes "indexing_failed"

abbrev pub failure_storage : Text
failure_storage = codes "storage_failed"

abbrev pub is_deleted : DocumentStatus → Bool
is_deleted deleted = true
is_deleted _ = false

abbrev pub is_unfinished : DocumentStatus → Bool
is_unfinished pending = true
is_unfinished processing = true
is_unfinished _ = false

module _ (t : Table Document) where
  -- `id` is what the caller drew, and the row's times are the time of the insert.
  unfoldable pub create_document :
      (now document_id organization_id : ℕ) (user_id : Option ℕ) (filename content_type : Text)
      (byte_size : ℕ) (content_hash object_key : Text)
      → t.State
      → Document × t.State
  create_document now document_id organization_id user_id filename content_type byte_size
        content_hash object_key s =
      let document : Document = record {
        id = document_id;
        organization_id = organization_id;
        uploaded_by_user_id = user_id;
        filename = take 255 filename;
        content_type = take 255 content_type;
        byte_size = byte_size;
        content_hash = content_hash;
        object_key = object_key;
        status = pending;
        chunk_count = 0;
        failure_reason = none;
        created_at = now;
        updated_at = now;
      } in
      (document, t.insert document s)

  unfoldable pub get_document : (organization_id document_id : ℕ) → t.State → Option Document
  get_document organization_id document_id s = first (
      filter
        (λ d.
          d.id == document_id && d.organization_id == organization_id && not (is_deleted d.status))
        (t.rows s))

  unfoldable pub list_documents : (organization_id limit : ℕ) → t.State → List Document
  list_documents organization_id limit s = take limit (
      order_by_desc (λ d. d.created_at)
        (filter (λ d. d.organization_id == organization_id && not (is_deleted d.status))
          (t.rows s)))

  -- The update of one document's row, which sets its time of change.
  unfoldable pub set_document : (now document_id : ℕ) → (Document → Document) → t.State → t.State
  set_document now document_id f s =
      t.update (λ d. d.id == document_id) (λ d. record (f d) { updated_at = now }) s

  unfoldable pub mark_processing : (now : ℕ) → Document → t.State → t.State
  unfolding set_document
  mark_processing now document =
      set_document now document.id (λ d. record d { status = processing })

  unfoldable pub mark_ready : (now : ℕ) → Document → (chunk_count : ℕ) → t.State → t.State
  unfolding set_document
  mark_ready now document chunk_count =
      set_document now document.id
        (λ d. record d { status = ready; chunk_count = chunk_count; failure_reason = none })

  unfoldable pub mark_failed : (now : ℕ) → Document → (reason : Text) → t.State → t.State
  unfolding set_document
  mark_failed now document reason =
      set_document now document.id (λ d. record d { status = failed; failure_reason = some reason })

  unfoldable pub mark_deleted : (now : ℕ) → Document → t.State → t.State
  unfolding set_document
  mark_deleted now document =
      set_document now document.id (λ d. record d { status = deleted; chunk_count = 0 })

  unfoldable pub stale_processing : (older_than : ℕ) → t.State → List Document
  stale_processing older_than s =
      filter (λ d. is_unfinished d.status && ltb d.updated_at older_than) (t.rows s)

-- ===== src/Ingestion.antt =====
-- ingestion/service.py: `DocumentIngestionService`, over an embedding provider and a vector store.
mod Indexing
mod Tests
use multi_agent_ai_analyst.Prelude.{
  ℕ, ◌+◌, Bool, true, false, not, ◌||◌, List, [], ◌∷◌, ◌++◌, Option, none, some, Outcome, ok, raise,
  ◌==◌, if◌then◌else◌, any, length,
}
use multi_agent_ai_analyst.Prelude.Text.{Text, codes, strip, text_eq, decimal}
use multi_agent_ai_analyst.Agents.State.{Error, value_error, runtime_error, other_error}
use multi_agent_ai_analyst.Agents.Action.{Action, pure, throw, lift, ◌>>=◌, ◌>>◌}
use multi_agent_ai_analyst.Agents.Specialists.{SearchResult}
use multi_agent_ai_analyst.Chunking.{chunk_text}

-- `V` is the type of a number of a vector.
pub record VectorPoint (V : Type 0) : Type 0 where
  pub id : ℕ
  pub vector : List V
  pub tenant_id : Text
  pub document_id : Text
  pub filename : Text
  pub chunk_index : ℕ
  pub content : Text

-- The service's attributes, with `uuid5` in the namespace of URLs. `S` is the state of the embedding
-- provider and of the vector store.
pub record Service (V S : Type 0) : Type 0 where
  pub embed : List Text → Action S (List (List V))
  pub upsert : List (VectorPoint V) → Action S (Unit {0})
  pub search : (tenant_id : Text) → List V → ℕ → Action S (List SearchResult)
  pub uuid5 : Text → ℕ
  pub chunk_size : ℕ
  pub chunk_overlap : ℕ
  pub embedding_dimensions : ℕ

unfoldable pub require : Bool → Error → Outcome Error (Unit {0})
require holds e = if holds then ok tt else raise e

unfoldable pub is_given : Text → Bool
unfolding text_eq strip
is_given t = not (text_eq (strip t) [])

-- `_validate_identity`
unfoldable pub validate_identity :
    (tenant_id document_id filename : Text) → Outcome Error (Unit {0})
unfolding is_given
validate_identity tenant_id document_id filename =
    if not (is_given tenant_id) || not (is_given document_id) || not (is_given filename)
    then raise value_error
    else ok tt

-- What `chunk_text` returns. A loop that does not end, which no result of the code stands for, is
-- an error here.
unfoldable pub returned : Outcome Text (Option (List Text)) → Outcome Error (List Text)
returned (raise message) = raise value_error
returned (ok none) = raise other_error
returned (ok (some chunks)) = ok chunks

unfoldable pub not_empty : List Text → Bool
not_empty [] = false
not_empty (chunk ∷ chunks) = true

-- `zip(chunks, vectors, strict=True)`
unfoldable pub zip_strict : {A B : Type 0} → List A → List B → Outcome Error (List (A × B))
zip_strict [] [] = ok []
zip_strict [] (y ∷ ys) = raise value_error
zip_strict (x ∷ xs) [] = raise value_error
zip_strict (x ∷ xs) (y ∷ ys) = elim (zip_strict xs ys) [
  | ok rest ↦ ok ((x, y) ∷ rest)
  | raise e ↦ raise e
]

module _ {V S : Type 0} (service : Service V S) where
  -- `_validate_vectors`
  unfoldable pub validate_vectors : List (List V) → (expected_count : ℕ) → Outcome Error (Unit {0})
  unfolding any
  validate_vectors vectors expected_count =
      if not (length vectors == expected_count)
      then raise runtime_error
      else if any (λ vector. not (length vector == service.embedding_dimensions)) vectors
      then raise runtime_error
      else ok tt

  -- The points for the chunks from `index` on
  unfoldable pub points_from :
      (tenant_id document_id filename : Text) (index : ℕ)
      → List (Text × List V)
      → List (VectorPoint V)
  unfolding decimal
  points_from tenant_id document_id filename index [] = []
  points_from tenant_id document_id filename index ((chunk, vector) ∷ rest) =
      record {
        id = service.uuid5 (tenant_id ++ codes ":" ++ document_id ++ codes ":" ++ decimal index);
        vector = vector;
        tenant_id = tenant_id;
        document_id = document_id;
        filename = filename;
        chunk_index = index;
        content = chunk;
      }
      ∷ points_from tenant_id document_id filename (index + 1) rest

  -- The calls of `ingest_text` once it has the chunks
  unfoldable pub index_chunks : (tenant_id document_id filename : Text) → List Text → Action S ℕ
  unfolding lift validate_vectors zip_strict points_from pure ◌>>=◌
  index_chunks tenant_id document_id filename chunks = do
    vectors ← service.embed chunks
    lift (validate_vectors vectors (length chunks))
    pairs ← lift (zip_strict chunks vectors)
    let points = points_from tenant_id document_id filename 0 pairs
    service.upsert points
    pure (length points)

  unfoldable pub ingest_text : (tenant_id document_id filename content : Text) → Action S ℕ
  unfolding validate_identity returned not_empty require lift chunk_text index_chunks ◌>>=◌
  ingest_text tenant_id document_id filename content = do
    lift (validate_identity tenant_id document_id filename)
    chunks ← lift (returned (chunk_text content service.chunk_size service.chunk_overlap))
    lift (require (not_empty chunks) value_error)
    index_chunks tenant_id document_id filename chunks

  -- `vectors[0]`
  unfoldable pub first_vector : List (List V) → Outcome Error (List V)
  first_vector [] = raise other_error
  first_vector (vector ∷ vectors) = ok vector

  -- `DocumentIngestionService.search`
  unfoldable pub search : (tenant_id query : Text) (limit : ℕ) → Action S (List SearchResult)
  unfolding require is_given lift strip validate_vectors first_vector ◌>>=◌
  search tenant_id query limit = do
    lift (require (is_given tenant_id) value_error)
    lift (require (is_given query) value_error)
    lift (require (not (limit == 0)) value_error)
    vectors ← service.embed (strip query ∷ [])
    lift (validate_vectors vectors 1)
    vector ← lift (first_vector vectors)
    service.search tenant_id vector limit

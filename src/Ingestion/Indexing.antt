-- ===== src/Ingestion/Indexing.antt =====
-- ingestion/service.py: what `ingest_text` hands to the vector store.
use multi_agent_ai_analyst.Prelude.{
  ℕ, ◌+◌, ◌<◌, ◌≡◌, refl, Bool, false, not, ◌||◌, ◌⊎◌, List, [], ◌∷◌, Outcome, ok, raise, some,
  ◌==◌, any, All, length, arith, Bool-cases, Outcome-cases, inl, inr,
}
use multi_agent_ai_analyst.Prelude.Text.{Text}
use multi_agent_ai_analyst.Agents.State.{Error, value_error, runtime_error}
use multi_agent_ai_analyst.Agents.Action.{attempt, pure, lift, ◌>>=◌, ◌>>◌}
use multi_agent_ai_analyst.Chunking.{chunk_text}
use multi_agent_ai_analyst.Chunking.Bounds.{IsChunk, chunk_text_terminates}
use multi_agent_ai_analyst.Ingestion.{
  is_given, VectorPoint, Service, require, validate_identity, returned, not_empty, zip_strict,
  validate_vectors, points_from, index_chunks, ingest_text,
}

module _ {V S : Type 0} (service : Service V S) (tenant_id document_id filename : Text) where
  -- A point of the document, with a vector of the right dimension.
  abbrev pub IsPoint : VectorPoint V → Type 0
  IsPoint point =
      (point.tenant_id ≡ tenant_id)
      × (point.document_id ≡ document_id)
      × (point.filename ≡ filename)
      × (length point.vector ≡ service.embedding_dimensions)

  -- The points of the chunks from `index` on, one for each, in the same order.
  abbrev pub ArePoints : (index : ℕ) → List Text → List (VectorPoint V) → Type 0
  ArePoints index [] [] = Unit
  ArePoints index [] (point ∷ points) = ⊥
  ArePoints index (chunk ∷ chunks) [] = ⊥
  ArePoints index (chunk ∷ chunks) (point ∷ points) =
      (point.content ≡ chunk)
      × (point.chunk_index ≡ index)
      × IsPoint point
      × ArePoints (index + 1) chunks points

  -- `chunk_text` returns these chunks.
  abbrev pub Splits : (content : Text) → List Text → Type 0
  Splits content chunks =
      chunk_text content service.chunk_size service.chunk_overlap ≡ ok (some chunks)

  -- The embedding provider raises `e`, or what it returns is refused with `e`.
  abbrev pub FailsToEmbed : List Text → S → Error → Type 0
  FailsToEmbed chunks s e =
      ((service.embed chunks s).0 ≡ raise e)
      ⊎ ((vectors : List (List V)) × ((service.embed chunks s).0 ≡ ok vectors)
          × (validate_vectors service vectors (length chunks) ≡ raise e))

  -- How `ingest_text` ends from the state `s`.
  pub data Ingests (content : Text) (s : S) : Outcome Error ℕ × S → Type 0 where
    refuses :
        (validate_identity tenant_id document_id filename ≡ raise value_error) ⊎ Splits content []
        → Ingests content s (raise value_error, s)
    fails :
        (e : Error) (chunks : List Text)
        → Splits content chunks
        → FailsToEmbed chunks s e
        → Ingests content s (raise e, (service.embed chunks s).1)
    stores :
        (chunks : List Text) (points : List (VectorPoint V))
        → 0 < length chunks
        → Splits content chunks
        → All (IsChunk service.chunk_size) chunks
        → ArePoints 0 chunks points
        → Ingests content s
            ((service.upsert points >> pure (length chunks)) (service.embed chunks s).1)

  is_wide : List V → Bool
  is_wide vector = not (length vector == service.embedding_dimensions)

  Zips : List Text → List (List V) → Type 0
  Zips chunks vectors =
      (pairs : List (Text × List V)) × (zip_strict chunks vectors ≡ ok pairs)
      × ((index : ℕ)
          → ArePoints index chunks (points_from service tenant_id document_id filename index pairs))
      × ((index : ℕ)
          → length (points_from service tenant_id document_id filename index pairs) ≡ length chunks)

  -- Vectors of the right number and dimensions are paired with the chunks.
  zip_strict-Zips :
      (chunks : List Text) (vectors : List (List V))
      → length vectors ≡ length chunks
      → any is_wide vectors ≡ false
      → Zips chunks vectors
  unfolding Zips zip_strict points_from any is_wide
  zip_strict-Zips [] [] same narrow = ([], refl, (λ index. tt), λ index. refl)
  zip_strict-Zips [] (vector ∷ vectors) same narrow = absurd (omega (arith, same))
  zip_strict-Zips (chunk ∷ chunks) [] same narrow = absurd (omega (arith, same))
  zip_strict-Zips (chunk ∷ chunks) (vector ∷ vectors) same narrow =
      let fits : length vector ≡ service.embedding_dimensions = ground arith in
      let more : any is_wide vectors ≡ false = ground arith in
      let (pairs, zipped, points, count) =
        zip_strict-Zips chunks vectors (omega (arith, same)) more in
      (
        (chunk, vector) ∷ pairs,
        rw zipped refl,
        (λ index. (refl, refl, (refl, refl, refl, fits), points (index + 1))),
        λ index. omega (arith, count (index + 1)),
      )

  refused_vectors :
      (content : Text) (s : S) (chunks : List Text) (vectors : List (List V))
      → Splits content chunks
      → (service.embed chunks s).0 ≡ ok vectors
      → validate_vectors service vectors (length chunks) ≡ raise runtime_error
      → Ingests content s (raise runtime_error, (service.embed chunks s).1)
  refused_vectors content s chunks vectors split embedded refused =
      fails runtime_error chunks split (inr (vectors, embedded, refused))

  index_chunks-Ingests :
      (content : Text) (chunks : List Text) (s : S)
      → 0 < length chunks
      → Splits content chunks
      → All (IsChunk service.chunk_size) chunks
      → Ingests content s (index_chunks service tenant_id document_id filename chunks s)
  unfolding index_chunks validate_vectors Zips ◌>>=◌ is_wide
  index_chunks-Ingests content chunks s some_chunk split sized =
      elim (Outcome-cases (service.embed chunks s).0) [
        | inr (e, failed) ↦
            rw (failed, index_chunks, ◌>>=◌, attempt) (fails e chunks split (inl failed))
        | inl (vectors, embedded) ↦
            let refused = refused_vectors content s chunks vectors split embedded in
            rw (embedded, index_chunks, ◌>>=◌, attempt)
              (elim (Bool-cases (length vectors == length chunks)) [
                | inr few ↦ rw few (refused (rw few refl))
                | inl same ↦ rw same (elim (Bool-cases (any is_wide vectors)) [
                  | inl wide ↦ rw wide (refused (rw same (rw wide refl)))
                  | inr narrow ↦
                      let alike : length vectors ≡ length chunks = ground arith in
                      let (pairs, zipped, points, count) =
                        zip_strict-Zips chunks vectors alike narrow in
                      rw narrow (
                        rw zipped (
                          rw (count 0) (
                            stores chunks
                              (points_from service tenant_id document_id filename 0 pairs)
                              some_chunk split sized (points 0))))
                ])
              ])
      ]

  required-Ingests :
      (content : Text) (chunks : List Text) (s : S)
      → Splits content chunks
      → All (IsChunk service.chunk_size) chunks
      → Ingests content s (
          (lift (require (not_empty chunks) value_error)
              >> index_chunks service tenant_id document_id filename chunks)
            s)
  unfolding require not_empty ◌>>=◌
  required-Ingests content [] s split sized = refuses (inr split)
  required-Ingests content (chunk ∷ chunks) s split sized =
      index_chunks-Ingests content (chunk ∷ chunks) s (omega arith) split sized

-- With chunk sizes that `chunk_text` accepts, `ingest_text` ends in one of three ways. It raises a
-- ValueError and calls nothing, if an id or the name is blank or the text has no chunk. It raises what
-- the embedding of the chunks raised, or refuses the number or the dimensions of the vectors, and does
-- not call the store. Or it hands the store one list of points and ends as that call does, with the
-- number of chunks if it returns. The points are those of the chunks in order: each has the ids of the
-- tenant and the document, the file's name, the place of its chunk, and a vector of the right
-- dimension; there is at least one, and no chunk is empty or longer than the chunk size.
pub ingest_text-Ingests :
    {V S : Type 0} (service : Service V S) (tenant_id document_id filename content : Text) (s : S)
    → service.chunk_overlap < service.chunk_size
    → Ingests service tenant_id document_id filename content s
        (ingest_text service tenant_id document_id filename content s)
unfolding ingest_text returned not_empty require ◌>>=◌ validate_identity
ingest_text-Ingests service tenant_id document_id filename content s h =
    let (chunks, split, sized) =
      chunk_text_terminates content service.chunk_size service.chunk_overlap h in
    let blank = not (is_given tenant_id) || not (is_given document_id) || not (is_given filename) in
    elim (Bool-cases blank) [
      | inl refused ↦ rw refused (refuses (inl (rw refused refl)))
      | inr given ↦ rw given (
          rw split
            (required-Ingests service tenant_id document_id filename content chunks s split sized))
    ]

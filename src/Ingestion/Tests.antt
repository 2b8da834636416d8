-- ===== src/Ingestion/Tests.antt =====
-- The ingestion of a short text, with a provider that embeds a text as its length, and a list as store.
use multi_agent_ai_analyst.Prelude.{
  ℕ, ◌≡◌, refl, List, [], ◌∷◌, ◌++◌, map, ok, raise, length, arith,
}
use multi_agent_ai_analyst.Prelude.Text.{split, join, Text, codes}
use multi_agent_ai_analyst.Agents.State.{value_error, runtime_error}
use multi_agent_ai_analyst.Ingestion.{Service, VectorPoint, ingest_text, search}
use multi_agent_ai_analyst.Ingestion.Indexing.{Ingests, ingest_text-Ingests}

abbrev service : (embedding_dimensions : ℕ) → Service ℕ (List (VectorPoint ℕ))
service embedding_dimensions = record {
  embed = λ texts stored. (ok (map (λ t. length t ∷ []) texts), stored);
  upsert = λ points stored. (ok tt, stored ++ points);
  search = λ tenant_id vector limit stored. (ok [], stored);
  uuid5 = length;
  chunk_size = 4;
  chunk_overlap = 1;
  embedding_dimensions = embedding_dimensions;
}

abbrev point : (place : ℕ) → (content : Text) → VectorPoint ℕ
point place content = record {
  id = 5;
  vector = length content ∷ [];
  tenant_id = codes "t";
  document_id = codes "d";
  filename = codes "f";
  chunk_index = place;
  content = content;
}

ingest_text_stores :
    ingest_text (service 1) (codes "t") (codes "d") (codes "f") (codes "aaa bb") []
    ≡ (ok 2, point 0 (codes "aaa") ∷ point 1 (codes "bb") ∷ [])
unfolding ingest_text join split
ingest_text_stores = refl

ingest_text_blank :
    ingest_text (service 1) (codes "t") (codes " ") (codes "f") (codes "aaa") []
    ≡ (raise value_error, [])
unfolding ingest_text
ingest_text_blank = refl

ingest_text_wide :
    ingest_text (service 2) (codes "t") (codes "d") (codes "f") (codes "aaa") []
    ≡ (raise runtime_error, [])
unfolding ingest_text join split
ingest_text_wide = refl

search_blank : search (service 1) (codes "t") (codes " ") 4 [] ≡ (raise value_error, [])
unfolding search
search_blank = refl

search_finds : search (service 1) (codes "t") (codes " q ") 4 [] ≡ (ok [], [])
unfolding search
search_finds = refl

ingest_text-Ingests_example :
    Ingests
      (service 1)
      (codes "t")
      (codes "d")
      (codes "f")
      (codes "aaa bb")
      []
      (ok 2, point 0 (codes "aaa") ∷ point 1 (codes "bb") ∷ [])
unfolding ingest_text join split
ingest_text-Ingests_example =
    ingest_text-Ingests (service 1) (codes "t") (codes "d") (codes "f") (codes "aaa bb") []
      (omega arith)

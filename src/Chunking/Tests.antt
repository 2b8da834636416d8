-- ===== src/Chunking/Tests.antt =====
-- Chunks of concrete texts.
use multi_agent_ai_analyst.Prelude.{◌≡◌, refl, List, [], ◌∷◌, some, ok, All, arith}
use multi_agent_ai_analyst.Prelude.Text.{Text, codes, split, join, strip}
use multi_agent_ai_analyst.Chunking.{
  chunk_text, chunks_from, end_of, next_start_of, rfind, chunk_at,
}
use multi_agent_ai_analyst.Chunking.Bounds.{IsChunk, chunk_text_terminates}

-- Chunks end at blanks, and the next one begins with the last word of the overlap.
three_words :
    chunk_text (codes "alpha  beta gamma") 11 5
    ≡ ok (some (codes "alpha beta" ∷ codes "beta gamma" ∷ []))
unfolding chunk_text chunks_from end_of next_start_of rfind chunk_at split join strip
three_words = refl

chunk_text_terminates_example :
    (chunks : List Text) × (chunk_text (codes "alpha  beta gamma") 11 5 ≡ ok (some chunks))
    × All (IsChunk 11) chunks
chunk_text_terminates_example = chunk_text_terminates (codes "alpha  beta gamma") 11 5 (omega arith)

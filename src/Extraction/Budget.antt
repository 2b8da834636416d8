-- ===== src/Extraction/Budget.antt =====
-- ingestion/extraction.py: `_Accumulator`, and what it makes of a sequence of texts.
use multi_agent_ai_analyst.Prelude.{
  ℕ, ◌+◌, List, [], ◌∷◌, ◌++◌, Outcome, ok, raise, ltb, if◌then◌else◌, length,
}
use multi_agent_ai_analyst.Prelude.Text.{Text, codes, join}
use multi_agent_ai_analyst.Extraction.Sources.{Failure, document_error}

-- `_Accumulator`, whose `_length` is `used`
pub record Accumulator : Type 0 where
  pub limit : ℕ
  pub used : ℕ
  pub parts : List Text

unfoldable pub empty : (limit : ℕ) → Accumulator
empty limit = record { limit = limit; used = 0; parts = [] }

abbrev pub too_large : Failure
too_large = document_error (codes "The extracted document text is too large to index")

-- `add`, where `used` has grown already if it raises, which nobody reads then
unfoldable pub add : Text → Accumulator → Outcome Failure Accumulator
add [] into = ok into
add (c ∷ text) into =
    let used = into.used + (length (c ∷ text) + 1) in
    if ltb into.limit used
    then raise too_large
    else ok (record into { used = used; parts = into.parts ++ (c ∷ text) ∷ [] })

-- `text`
unfoldable pub text_of : Accumulator → Text
unfolding join
text_of into = join (codes "\n") into.parts

-- The characters of the parts, each with the separator after it.
abbrev pub width : List Text → ℕ
width [] = 0
width (part ∷ parts) = (length part + 1) + width parts

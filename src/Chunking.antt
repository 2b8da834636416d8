-- ===== src/Chunking.antt =====
-- ingestion/chunking.py: `chunk_text`, which splits a document into overlapping chunks.
pub mod Bounds
mod Tests
use multi_agent_ai_analyst.Prelude.{
  ℕ, zero, suc, ◌+◌, ◌-◌, min, Bool, true, false, not, ◌&&◌, List, [], ◌∷◌, Option, none, some,
  Outcome, ok, raise, first, take, drop, length, ltb, leb, ◌==◌, if◌then◌else◌,
}
use multi_agent_ai_analyst.Prelude.Text.{Text, codes, strip, split, join}

-- `text[i] == " "`
is_blank_at : Text → ℕ → Bool
is_blank_at text i = elim (first (drop i text)) [ none ↦ false | some c ↦ c == 32 ]

-- The last of the `n` places from `from` on that holds a blank.
last_blank : Text → (from n : ℕ) → Option ℕ
unfolding is_blank_at
last_blank text from zero = none
last_blank text from (suc n) =
    let earlier = last_blank text from n in
    if is_blank_at text (from + n) then some (from + n) else earlier

-- `text.rfind(" ", start + 1, end + 1)`
unfoldable pub rfind : Text → (start end : ℕ) → Option ℕ
unfolding last_blank
rfind text start end = last_blank text (start + 1) (end - start)

at_boundary : (start end : ℕ) → Option ℕ → ℕ
at_boundary start end none = end
at_boundary start end (some boundary) = if ltb start boundary then boundary else end

-- Where the chunk from `start` on ends.
unfoldable pub end_of : Text → (chunk_size start : ℕ) → ℕ
unfolding at_boundary rfind
end_of text chunk_size start =
    let end = min (start + chunk_size) (length text) in
    if ltb end (length text) then at_boundary start end (rfind text start end) else end

-- `while next_start > start and text[next_start - 1] != " ": next_start -= 1`
back_to_word : Text → (start next_start : ℕ) → ℕ
unfolding is_blank_at
back_to_word text start zero = zero
back_to_word text start (suc next_start) =
    let earlier = back_to_word text start next_start in
    if ltb start (suc next_start) && not (is_blank_at text next_start)
    then earlier
    else suc next_start

forward : (start end next_start : ℕ) → ℕ
forward start end next_start = if ltb start next_start then next_start else end

-- Where the next chunk starts. A place before the text, where Python counts from its end, is never
-- after `start`, so the chunk starts at `end` then.
unfoldable pub next_start_of : Text → (chunk_overlap start end : ℕ) → ℕ
unfolding is_blank_at back_to_word forward
next_start_of text chunk_overlap start end =
    if ltb end chunk_overlap
    then end
    else if is_blank_at text (end - chunk_overlap)
    then forward start end ((end - chunk_overlap) + 1)
    else forward start end (back_to_word text start (end - chunk_overlap))

-- `if chunk: chunks.append(chunk)`
append_chunk : Text → List Text → List Text
append_chunk [] chunks = chunks
append_chunk (c ∷ chunk) chunks = (c ∷ chunk) ∷ chunks

before : Text → Option (List Text) → Option (List Text)
unfolding append_chunk
before chunk none = none
before chunk (some chunks) = some (append_chunk chunk chunks)

unfoldable pub chunk_at : Text → (start end : ℕ) → Text
chunk_at text start end = strip (take (end - start) (drop start text))

-- The loop from `start` on; `none` is a loop that has used up its fuel.
unfoldable pub chunks_from : Text → (chunk_size chunk_overlap fuel start : ℕ) → Option (List Text)
unfolding end_of next_start_of append_chunk before chunk_at
chunks_from text chunk_size chunk_overlap zero start = none
chunks_from text chunk_size chunk_overlap (suc fuel) start =
    let end = end_of text chunk_size start in
    let rest =
      chunks_from text chunk_size chunk_overlap fuel (next_start_of text chunk_overlap start end) in
    if leb (length text) start
    then some []
    else if leb (length text) end
    then some (append_chunk (chunk_at text start end) [])
    else before (chunk_at text start end) rest

-- The sizes are not negative. `none` inside the result is a loop that does not end.
unfoldable pub chunk_text :
    Text → (chunk_size chunk_overlap : ℕ) → Outcome Text (Option (List Text))
unfolding chunks_from
chunk_text text chunk_size chunk_overlap =
    let normalized = join (codes " ") (split text) in
    if chunk_size == 0
    then raise (codes "chunk_size must be greater than zero")
    else if leb chunk_size chunk_overlap
    then raise (codes "chunk_overlap must be at least zero and smaller than chunk_size")
    else ok (chunks_from normalized chunk_size chunk_overlap (length normalized + 1) 0)

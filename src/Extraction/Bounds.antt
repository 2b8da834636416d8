-- ===== src/Extraction/Bounds.antt =====
-- ingestion/extraction.py: the texts that are extracted stay within the character budget.
use multi_agent_ai_analyst.Prelude.{
  ℕ, ◌<◌, ◌≡◌, true, List, [], ◌∷◌, ok, raise, ◌>>=◌, if◌then◌else◌, length, arith, Bool-cases, inl,
  inr,
}
use multi_agent_ai_analyst.Prelude.Text.{Text, codes, splitlines, join}
use multi_agent_ai_analyst.Extraction.Sources.{suffix, document_error, Parsers}
use multi_agent_ai_analyst.Extraction.Budget.{Accumulator, empty, text_of}
use multi_agent_ai_analyst.Extraction.Formats.{extract_into, is_one_of}
use multi_agent_ai_analyst.Extraction.{
  as_unreadable, is_text, readable_lines, normalized, extract_supported, extract_document_text,
  guard_archive, archive_extensions, supported_extensions,
}
use multi_agent_ai_analyst.Extraction.Formats.Bounds.{
  IsWithin, empty-IsWithin, extract_into-IsWithin,
}
use multi_agent_ai_analyst.Extraction.Yields.{
  Yields, Yields-ok, Yields-then, Yields-as_unreadable, Yields-after, Yields-if,
}
use multi_agent_ai_analyst.Extraction.Widths.{width-splitlines, width-filter, length-join}

is_text-length : (t : Text) → is_text t ≡ true → 0 < length t
unfolding is_text
is_text-length [] h = cc
is_text-length (c ∷ t) h = omega arith

-- A text with a character, and with fewer than the limit.
abbrev pub IsIndexable : ℕ → Text → Type 0
IsIndexable limit text = (0 < length text) × (length text < limit)

normalized-IsIndexable :
    (limit : ℕ) (into : Accumulator)
    → IsWithin limit into
    → Yields (IsIndexable limit) (normalized (text_of into))
unfolding normalized text_of is_text readable_lines
normalized-IsIndexable limit into h =
    let text = join (codes "\n") into.parts in
    let lines = readable_lines text in
    elim (Bool-cases (is_text (join (codes "\n") lines))) [
      | inr blank ↦ rw blank tt
      | inl readable ↦ rw readable (
        is_text-length _ readable,
        omega (
          arith,
          h.1,
          is_text-length _ readable,
          length-join lines,
          width-filter (splitlines text),
          width-splitlines text,
          length-join into.parts,
        ),
      )
    ]

module _ (parsers : Parsers) (limit : ℕ) where
  extract_supported-IsIndexable :
      (extension : Text) (content : List ℕ) (max_archive_members max_expansion_ratio : ℕ)
      → Yields (IsIndexable limit) (
          extract_supported parsers extension content limit max_archive_members max_expansion_ratio)
  unfolding extract_supported
  extract_supported-IsIndexable extension content members ratio =
      let attempted = extract_into parsers extension content (empty limit) in
      Yields-then (IsIndexable limit)
        (if is_one_of archive_extensions extension
          then guard_archive parsers content members ratio
          else ok tt)
        (as_unreadable attempted >>= λ into. normalized (text_of into))
        (Yields-after (IsIndexable limit) (IsWithin limit) (as_unreadable attempted) _
          (Yields-as_unreadable (IsWithin limit) attempted (
            extract_into-IsWithin parsers limit extension content (empty limit)
              (empty-IsWithin limit)))
          (normalized-IsIndexable limit))

-- The text that `extract_document_text` returns has a character, and fewer than `max_characters`.
pub extract_document_text-IsIndexable :
    (parsers : Parsers) (lower : Text → Text) (filename : Text) (content : List ℕ)
    (max_characters max_archive_members max_expansion_ratio : ℕ) (text : Text)
    → extract_document_text parsers lower filename content max_characters max_archive_members
        max_expansion_ratio
      ≡ ok text
    → IsIndexable max_characters text
unfolding extract_document_text
extract_document_text-IsIndexable parsers lower filename content limit members ratio text e =
    let extension = lower (suffix filename) in
    Yields-ok (IsIndexable limit) _ text
      (Yields-if (IsIndexable limit) (is_one_of supported_extensions extension)
        (extract_supported parsers extension content limit members ratio)
        (raise (document_error (codes "This document format is not supported")))
        (extract_supported-IsIndexable parsers limit extension content members ratio) tt)
      e

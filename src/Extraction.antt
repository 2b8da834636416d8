-- ===== src/Extraction.antt =====
-- ingestion/extraction.py: the text of an uploaded document, and the ceilings on it.
pub mod Sources
mod Budget
mod Formats
mod Yields
mod Widths
pub mod Bounds
pub mod Refusals
pub mod Guard
pub mod Measures
mod Tests
use multi_agent_ai_analyst.Prelude.{
  ℕ, ◌+◌, ◌*◌, ◌%◌, min, max, Bool, true, false, not, ◌&&◌, ◌||◌, List, [], ◌∷◌, ◌++◌, map, Option,
  none, some, Outcome, ok, raise, ◌>>=◌, ◌>>◌, ltb, ◌==◌, if◌then◌else◌, any, filter, length,
}
use multi_agent_ai_analyst.Extraction.Sources.{
  Failure, document_error, bad_zip_file, other_error, Pieces, pieces, for_each, Member, Pdf,
  WordDocument, Worksheet, Workbook, Parsers, suffix,
}
use multi_agent_ai_analyst.Extraction.Budget.{Accumulator, empty, add, text_of}
use multi_agent_ai_analyst.Extraction.Formats.{
  is_one_of, check, separator, or_empty, values_of, add_values, add_worksheet, finally,
  extract_delimited, extract_html, extract_pdf, extract_docx, extract_xlsx, extract_into,
}
use multi_agent_ai_analyst.Prelude.Text.{Text, codes, text_eq, strip, splitlines, join}
use multi_agent_ai_analyst.Json.{Json}

abbrev pub archive_extensions : List Text
archive_extensions = codes ".docx" ∷ codes ".xlsx" ∷ []

-- `SUPPORTED_DOCUMENT_EXTENSIONS`
abbrev pub supported_extensions : List Text
supported_extensions =
    codes ".txt"
    ∷ codes ".md"
    ∷ codes ".csv"
    ∷ codes ".tsv"
    ∷ codes ".json"
    ∷ codes ".html"
    ∷ codes ".htm"
    ∷ codes ".pdf"
    ∷ archive_extensions

unfoldable pub is_supported_document : (lower : Text → Text) (filename : Text) → Bool
unfolding is_one_of suffix
is_supported_document lower filename = is_one_of supported_extensions (lower (suffix filename))

abbrev pub unreadable : Failure
unreadable = document_error (codes "The document could not be read as valid content")

unfoldable pub is_encrypted_member : Member → Bool
is_encrypted_member member = member.flag_bits % 2 == 1

unfoldable pub uncompressed : List Member → ℕ
uncompressed [] = 0
uncompressed (member ∷ members) = member.file_size + uncompressed members

-- What an archive of so many bytes may become, in bytes.
abbrev pub allowed_bytes : (content_length max_expansion_ratio : ℕ) → ℕ
allowed_bytes content_length max_expansion_ratio =
    min (max content_length 1 * max_expansion_ratio) 300000000

-- The body of the `try` of `_guard_archive`
unfoldable pub inspected : (max_members : ℕ) → List Member → Outcome Failure ℕ
unfolding check is_encrypted_member uncompressed any
inspected max_members members = do
  check (ltb max_members (length members)) (codes "The document contains too many internal parts")
  check (any is_encrypted_member members) (codes "Password-protected documents are not supported")
  ok (uncompressed members)

-- `except zipfile.BadZipFile`
unfoldable pub without_bad_zip {ℓ} : {A : Type ℓ} → Outcome Failure A → Outcome Failure A
without_bad_zip (ok a) = ok a
without_bad_zip (raise (document_error message)) = raise (document_error message)
without_bad_zip (raise bad_zip_file) = raise unreadable
without_bad_zip (raise (other_error n)) = raise (other_error n)

-- `except DocumentExtractionError: raise`, and `except Exception`
unfoldable pub as_unreadable {ℓ} : {A : Type ℓ} → Outcome Failure A → Outcome Failure A
as_unreadable (ok a) = ok a
as_unreadable (raise (document_error message)) = raise (document_error message)
as_unreadable (raise bad_zip_file) = raise unreadable
as_unreadable (raise (other_error n)) = raise unreadable

unfoldable pub is_text : Text → Bool
unfolding text_eq
is_text [] = false
is_text (c ∷ t) = true

-- The lines of a text that are not blank, without the white space around them.
unfoldable pub readable_lines : Text → List Text
unfolding strip splitlines filter is_text
readable_lines text = filter is_text (map strip (splitlines text))

unfoldable pub normalized : Text → Outcome Failure Text
unfolding readable_lines join is_text check
normalized text =
    let joined = join (codes "\n") (readable_lines text) in
    if is_text joined
    then ok joined
    else raise (document_error (codes "The document contains no readable text"))

module _ (parsers : Parsers) where
  -- `_guard_archive`
  unfoldable pub guard_archive :
      List ℕ → (max_members max_expansion_ratio : ℕ) → Outcome Failure (Unit {0})
  unfolding check inspected without_bad_zip
  guard_archive content max_members max_expansion_ratio = do
    bytes ← without_bad_zip (parsers.infolist content >>= inspected max_members)
    check (ltb (allowed_bytes (length content) max_expansion_ratio) bytes)
        (codes "The document expands to an unsafe size")

  -- The calls of `extract_document_text` for a document with a suffix that is supported.
  unfoldable pub extract_supported :
      (extension : Text)
      → List ℕ
      → (max_characters max_archive_members max_expansion_ratio : ℕ) → Outcome Failure Text
  unfolding is_one_of guard_archive as_unreadable extract_into empty text_of normalized
  extract_supported extension content max_characters max_archive_members max_expansion_ratio = do
    if is_one_of archive_extensions extension
        then guard_archive content max_archive_members max_expansion_ratio
        else ok tt
    into ← as_unreadable (extract_into parsers extension content (empty max_characters))
    normalized (text_of into)

  unfoldable pub extract_document_text :
      (lower : Text → Text) (filename : Text)
      → List ℕ
      → (max_characters max_archive_members max_expansion_ratio : ℕ) → Outcome Failure Text
  unfolding is_one_of suffix extract_supported
  extract_document_text lower filename content max_characters max_members max_ratio =
      if is_one_of supported_extensions (lower (suffix filename))
      then extract_supported (lower (suffix filename)) content max_characters max_members max_ratio
      else raise (document_error (codes "This document format is not supported"))

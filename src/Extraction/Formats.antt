-- ===== src/Extraction/Formats.antt =====
-- ingestion/extraction.py: the extractors of the formats, and the choice among them.
pub mod Bounds
use multi_agent_ai_analyst.Prelude.{
  ℕ, ◌+◌, ◌*◌, ◌%◌, min, max, Bool, true, false, not, ◌&&◌, ◌||◌, List, [], ◌∷◌, ◌++◌, map, Option,
  none, some, Outcome, ok, raise, ◌>>=◌, ◌>>◌, ltb, ◌==◌, if◌then◌else◌, any, filter, length,
}
use multi_agent_ai_analyst.Extraction.Sources.{
  Failure, document_error, bad_zip_file, other_error, Pieces, pieces, for_each, Member, Pdf,
  WordDocument, Worksheet, Workbook, Parsers, suffix,
}
use multi_agent_ai_analyst.Extraction.Budget.{Accumulator, empty, add, text_of}
use multi_agent_ai_analyst.Prelude.Text.{Text, codes, text_eq, strip, splitlines, join}
use multi_agent_ai_analyst.Json.{Json}

unfoldable pub is_one_of : List Text → Text → Bool
unfolding text_eq any
is_one_of extensions extension = any (text_eq extension) extensions

-- `if refused: raise DocumentExtractionError(message)`
unfoldable pub check : Bool → Text → Outcome Failure (Unit {0})
check refused message = if refused then raise (document_error message) else ok tt

abbrev pub separator : Text
separator = codes " | "

-- `page.extract_text() or ""`
abbrev pub or_empty : Option Text → Text
or_empty none = []
or_empty (some t) = t

-- `[str(value) for value in row if value is not None]`
unfoldable pub values_of : List (Option Text) → List Text
values_of [] = []
values_of (none ∷ row) = values_of row
values_of (some t ∷ row) = t ∷ values_of row

-- `if values: into.add(" | ".join(values))`
unfoldable pub add_values : List Text → Accumulator → Outcome Failure Accumulator
unfolding add join
add_values [] into = ok into
add_values (value ∷ values) into = add (join separator (value ∷ values)) into

unfoldable pub add_worksheet : Worksheet → Accumulator → Outcome Failure Accumulator
unfolding add for_each values_of add_values
add_worksheet worksheet into = do
  into ← add (codes "Sheet: " ++ worksheet.title) into
  for_each (λ row. add_values (values_of row)) worksheet.iter_rows into

-- `try: … finally: workbook.close()`
unfoldable pub finally {ℓ} :
    {A : Type ℓ} → Outcome Failure A → Outcome Failure (Unit {0}) → Outcome Failure A
finally result (ok done) = result
finally result (raise e) = raise e

module _ (parsers : Parsers) where
  -- `_extract_delimited`
  unfoldable pub extract_delimited :
      List ℕ → (delimiter : Text) → Accumulator → Outcome Failure Accumulator
  unfolding for_each add strip join
  extract_delimited content delimiter into = do
    text ← parsers.decode content
    for_each (λ row. add (join separator (map strip row))) (parsers.reader delimiter text) into

  -- `_extract_html`, with `_TextCollector.handle_data`
  unfoldable pub extract_html : List ℕ → Accumulator → Outcome Failure Accumulator
  unfolding for_each add
  extract_html content into = do
    text ← parsers.decode content
    for_each add (parsers.feed text) into

  -- `_extract_pdf`
  unfoldable pub extract_pdf : List ℕ → Accumulator → Outcome Failure Accumulator
  unfolding for_each add check
  extract_pdf content into = do
    reader ← parsers.pdf_reader content
    encrypted ← reader.is_encrypted
    check encrypted (codes "Password-protected PDFs are not supported")
    pages ← reader.page_count
    check (ltb 5000 pages) (codes "The document has too many pages to index")
    for_each (λ page. add (or_empty page)) reader.page_texts into

  -- `_extract_docx`
  unfoldable pub extract_docx : List ℕ → Accumulator → Outcome Failure Accumulator
  unfolding for_each add join
  extract_docx content into = do
    document ← parsers.word_document content
    into ← for_each add document.paragraphs into
    for_each (λ table. for_each (λ cells. add (join separator cells)) table) document.tables into

  -- `_extract_xlsx`
  unfoldable pub extract_xlsx : List ℕ → Accumulator → Outcome Failure Accumulator
  unfolding for_each add_worksheet check finally
  extract_xlsx content into = do
    workbook ← parsers.load_workbook content
    finally
        (do
          worksheets ← workbook.worksheets
          check (ltb 200 (length worksheets)) (codes "The workbook has too many sheets to index")
          for_each add_worksheet (pieces worksheets) into)
        workbook.close

  -- The `try` of `extract_document_text`
  unfoldable pub extract_into :
      (extension : Text) → List ℕ → Accumulator → Outcome Failure Accumulator
  unfolding is_one_of text_eq add extract_delimited extract_html extract_pdf extract_docx
      extract_xlsx
  extract_into extension content into =
      if is_one_of (codes ".txt" ∷ codes ".md" ∷ []) extension
      then (parsers.decode content >>= λ text. add text into)
      else if is_one_of (codes ".csv" ∷ codes ".tsv" ∷ []) extension
      then extract_delimited content
          (if text_eq extension (codes ".tsv") then codes "\t" else codes ",") into
      else if text_eq extension (codes ".json")
      then (do
        text ← parsers.decode content
        value ← parsers.loads text
        add (parsers.dumps value) into)
      else if is_one_of (codes ".html" ∷ codes ".htm" ∷ []) extension
      then extract_html content into
      else if text_eq extension (codes ".pdf")
      then extract_pdf content into
      else if text_eq extension (codes ".docx")
      then extract_docx content into
      else extract_xlsx content into

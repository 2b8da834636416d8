-- ===== src/Extraction/Formats/Bounds.antt =====
-- ingestion/extraction.py: every extractor stays within the budget of the accumulator.
use multi_agent_ai_analyst.Prelude.{
  ℕ, ◌+◌, ◌≤◌, ◌≡◌, refl, List, [], ◌∷◌, ◌++◌, ltb, length, arith, Bool-cases, inl, inr,
}
use multi_agent_ai_analyst.Prelude.Text.{Text, codes, join}
use multi_agent_ai_analyst.Extraction.Sources.{Worksheet, Pieces, pieces, for_each, Parsers}
use multi_agent_ai_analyst.Extraction.Budget.{Accumulator, empty, add, width}
use multi_agent_ai_analyst.Extraction.Formats.{
  check, or_empty, values_of, add_values, add_worksheet, separator, extract_delimited, extract_html,
  extract_pdf, extract_docx, extract_xlsx, extract_into,
}
use multi_agent_ai_analyst.Extraction.Yields.{
  Yields, Yields-bind, Yields-then, Yields-finally, Yields-after, Yields-if, Yields-for_each,
}
use multi_agent_ai_analyst.Extraction.Widths.{width-append}

-- The accumulator counts its parts, and the count is within the limit.
abbrev pub IsWithin : ℕ → Accumulator → Type 0
IsWithin limit into =
    (into.limit ≡ limit) × (into.used ≡ width into.parts) × (into.used ≤ into.limit)

pub empty-IsWithin : (limit : ℕ) → IsWithin limit (empty limit)
unfolding empty
empty-IsWithin limit = (refl, refl, omega arith)

module _ (limit : ℕ) where
  pub add-IsWithin :
      (text : Text) (into : Accumulator)
      → IsWithin limit into
      → Yields (IsWithin limit) (add text into)
  unfolding add
  add-IsWithin [] into h = h
  add-IsWithin (c ∷ text) into h =
      elim (Bool-cases (ltb into.limit (into.used + (length (c ∷ text) + 1)))) [
        | inl over ↦ rw over tt
        | inr fits ↦
            rw fits
              (h.0, omega (arith, h.1, width-append into.parts ((c ∷ text) ∷ [])), ground arith)
      ]

  pub each_add-IsWithin :
      {A : Type 0} (text : A → Text) (xs : Pieces A) (into : Accumulator)
      → IsWithin limit into
      → Yields (IsWithin limit) (for_each (λ x. add (text x)) xs into)
  each_add-IsWithin text xs into h =
      Yields-for_each (IsWithin limit) (λ x. add (text x)) (λ x s. add-IsWithin (text x) s) xs into
        h

module _ (parsers : Parsers) (limit : ℕ) where
  pub extract_delimited-IsWithin :
      (content : List ℕ) (delimiter : Text) (into : Accumulator)
      → IsWithin limit into
      → Yields (IsWithin limit) (extract_delimited parsers content delimiter into)
  unfolding extract_delimited
  extract_delimited-IsWithin content delimiter into h =
      Yields-bind (IsWithin limit) (parsers.decode content) _
        (λ text. each_add-IsWithin limit _ (parsers.reader delimiter text) into h)

  extract_html-IsWithin :
      (content : List ℕ) (into : Accumulator)
      → IsWithin limit into
      → Yields (IsWithin limit) (extract_html parsers content into)
  unfolding extract_html
  extract_html-IsWithin content into h =
      Yields-bind (IsWithin limit) (parsers.decode content) _
        (λ text. each_add-IsWithin limit (λ text. text) (parsers.feed text) into h)

  extract_docx-IsWithin :
      (content : List ℕ) (into : Accumulator)
      → IsWithin limit into
      → Yields (IsWithin limit) (extract_docx parsers content into)
  unfolding extract_docx
  extract_docx-IsWithin content into h =
      let P = IsWithin limit in
      Yields-bind P (parsers.word_document content) _ (λ document.
        Yields-after P P _ _ (each_add-IsWithin limit (λ text. text) document.paragraphs into h)
          (λ into' h'.
            Yields-for_each P _ (λ table. each_add-IsWithin limit _ table) document.tables into'
              h'))

  extract_pdf-IsWithin :
      (content : List ℕ) (into : Accumulator)
      → IsWithin limit into
      → Yields (IsWithin limit) (extract_pdf parsers content into)
  unfolding extract_pdf
  extract_pdf-IsWithin content into h =
      let P = IsWithin limit in
      Yields-bind P (parsers.pdf_reader content) _ (λ reader.
        Yields-bind P reader.is_encrypted _ (λ encrypted. Yields-then P (check encrypted _) _ (
          Yields-bind P reader.page_count _ (λ count.
            Yields-then P (check (ltb 5000 count) _) _
              (each_add-IsWithin limit or_empty reader.page_texts into h)))))

  add_values-IsWithin :
      (values : List Text) (into : Accumulator)
      → IsWithin limit into
      → Yields (IsWithin limit) (add_values values into)
  unfolding add_values
  add_values-IsWithin [] into h = h
  add_values-IsWithin (value ∷ values) into h =
      add-IsWithin limit (join separator (value ∷ values)) into h

  add_worksheet-IsWithin :
      (worksheet : Worksheet) (into : Accumulator)
      → IsWithin limit into
      → Yields (IsWithin limit) (add_worksheet worksheet into)
  unfolding add_worksheet
  add_worksheet-IsWithin worksheet into h =
      let P = IsWithin limit in
      Yields-after P P _ _ (add-IsWithin limit (codes "Sheet: " ++ worksheet.title) into h)
        (λ into' h'.
          Yields-for_each P _ (λ row. add_values-IsWithin (values_of row)) worksheet.iter_rows into'
            h')

  extract_xlsx-IsWithin :
      (content : List ℕ) (into : Accumulator)
      → IsWithin limit into
      → Yields (IsWithin limit) (extract_xlsx parsers content into)
  unfolding extract_xlsx
  extract_xlsx-IsWithin content into h =
      let P = IsWithin limit in
      Yields-bind P (parsers.load_workbook content) _ (λ workbook.
        Yields-finally P _ workbook.close (
          Yields-bind P workbook.worksheets _ (λ worksheets.
            Yields-then P (check (ltb 200 (length worksheets)) _) _
              (Yields-for_each P _ add_worksheet-IsWithin (pieces worksheets) into h))))

  pub extract_into-IsWithin :
      (extension : Text) (content : List ℕ) (into : Accumulator)
      → IsWithin limit into
      → Yields (IsWithin limit) (extract_into parsers extension content into)
  unfolding extract_into
  extract_into-IsWithin extension content into h =
      let P = IsWithin limit in
      let plain =
        Yields-bind P (parsers.decode content) (λ text. add text into)
          (λ text. add-IsWithin limit text into h) in
      let json = Yields-bind P (parsers.decode content) _ (λ text.
        Yields-bind P (parsers.loads text) (λ value. add (parsers.dumps value) into)
          (λ value. add-IsWithin limit (parsers.dumps value) into h)) in
      search
        (
          Yields-if P,
          plain,
          json,
          extract_delimited-IsWithin content,
          extract_html-IsWithin content into h,
          extract_pdf-IsWithin content into h,
          extract_docx-IsWithin content into h,
          extract_xlsx-IsWithin content into h,
        )
        depth 16

-- ===== src/Extraction/Sources.antt =====
-- ingestion/extraction.py: what the parsers of documents give, and the file name's suffix.
-- The parsers are csv, html.parser, zipfile, pypdf, docx and openpyxl.
use multi_agent_ai_analyst.Prelude.{
  ℕ, Bool, ◌||◌, List, [], ◌∷◌, ◌++◌, Option, none, some, Outcome, ok, raise, ◌>>=◌, ◌==◌,
  if◌then◌else◌,
}
use multi_agent_ai_analyst.Prelude.Text.{Text, codes, text_eq}
use multi_agent_ai_analyst.Json.{Json}

-- An exception: `DocumentExtractionError` with its message, `zipfile.BadZipFile`, or another one.
pub data Failure : Type 0 where
  document_error : Text → Failure
  bad_zip_file : Failure
  other_error : ℕ → Failure

-- What an iterator gives: its items one by one, until it is exhausted or raises.
pub data Pieces {ℓ} (A : Type ℓ) : Type ℓ where
  ended : Pieces A
  broke : Failure → Pieces A
  piece : A → Pieces A → Pieces A

abbrev pub pieces {ℓ} : {A : Type ℓ} → List A → Pieces A
pieces [] = ended
pieces (x ∷ xs) = piece x (pieces xs)

-- `for x in xs: …`, where the body changes the state or raises
unfoldable pub for_each {ℓ κ} :
    {A : Type ℓ} {S : Type κ} → (A → S → Outcome Failure S) → Pieces A → S → Outcome Failure S
for_each body ended s = ok s
for_each body (broke e) s = raise e
for_each body (piece x rest) s = body x s >>= λ s'. for_each body rest s'

-- `infolist()` has one of these for each part of an archive.
pub record Member : Type 0 where
  pub flag_bits : ℕ
  pub file_size : ℕ

-- A `PdfReader`. Its pages have the texts that `extract_text` returns.
pub record Pdf : Type 0 where
  pub is_encrypted : Outcome Failure Bool
  pub page_count : Outcome Failure ℕ
  pub page_texts : Pieces (Option Text)

-- A table has rows, and a row has cells with a text each.
pub record WordDocument : Type 0 where
  pub paragraphs : Pieces Text
  pub tables : Pieces (Pieces (List Text))

-- A cell is empty, or has the text that `str` makes of its value.
pub record Worksheet : Type 0 where
  pub title : Text
  pub iter_rows : Pieces (List (Option Text))

pub record Workbook : Type 0 where
  pub worksheets : Outcome Failure (List Worksheet)
  pub close : Outcome Failure (Unit {0})

-- `decode` is of "utf-8-sig", and `feed` gives the data that `handle_data` is called with.
pub record Parsers : Type 0 where
  pub decode : List ℕ → Outcome Failure Text
  pub loads : Text → Outcome Failure Json
  pub dumps : Json → Text
  pub reader : (delimiter : Text) → Text → Pieces (List Text)
  pub feed : Text → Pieces Text
  pub infolist : List ℕ → Outcome Failure (List Member)
  pub pdf_reader : List ℕ → Outcome Failure Pdf
  pub word_document : List ℕ → Outcome Failure WordDocument
  pub load_workbook : List ℕ → Outcome Failure Workbook

-- The part of a path after its last `/`. A path that ends in `/` or in `/.` has the name before.
unfoldable pub name_from : (name segment : Text) → Text → Text
unfolding text_eq
name_from name segment [] =
    if text_eq segment [] || text_eq segment (codes ".") then name else segment
name_from name segment (c ∷ path) =
    let name' = if text_eq segment [] || text_eq segment (codes ".") then name else segment in
    let next = name_from name' [] path in
    let more = name_from name (segment ++ c ∷ []) path in if c == b'/' then next else more

-- `name[name.rfind("."):]`, or `none` where there is no dot
unfoldable pub after_dot : Text → Option Text
after_dot [] = none
after_dot (c ∷ s) = elim (after_dot s) [
  | none ↦ if c == b'.' then some (c ∷ s) else none
  | some t ↦ some t
]

-- The suffix of a name: not from its first character on, and not a dot alone.
unfoldable pub suffix_of : Text → Text
unfolding after_dot
suffix_of [] = []
suffix_of (c ∷ s) = elim (after_dot s) [
  | none ↦ []
  | some [] ↦ []
  | some (d ∷ []) ↦ []
  | some (d ∷ e ∷ t) ↦ d ∷ e ∷ t
]

-- `PurePath(filename).suffix`
unfoldable pub suffix : Text → Text
unfolding name_from suffix_of
suffix filename = suffix_of (name_from [] [] filename)

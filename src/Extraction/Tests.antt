-- ===== src/Extraction/Tests.antt =====
-- The extraction of small documents, with parsers that read one form each.
use multi_agent_ai_analyst.Prelude.{
  ℕ, ◌≡◌, refl, false, List, [], ◌∷◌, map, none, some, Outcome, ok, raise, ◌==◌, if◌then◌else◌,
}
use multi_agent_ai_analyst.Prelude.Text.{strip, join, Text, codes, splitlines}
use multi_agent_ai_analyst.Json.{null}
use multi_agent_ai_analyst.Extraction.Sources.{
  Failure, document_error, bad_zip_file, other_error, ended, piece, pieces, Parsers, suffix,
}
use multi_agent_ai_analyst.Extraction.Budget.{empty, too_large}
use multi_agent_ai_analyst.Extraction.Formats.{is_one_of, extract_delimited, extract_html}
use multi_agent_ai_analyst.Extraction.{extract_document_text, readable_lines}
use multi_agent_ai_analyst.Extraction.Bounds.{IsIndexable, extract_document_text-IsIndexable}
use multi_agent_ai_analyst.Extraction.Refusals.{IsExplained, extract_document_text-IsExplained}
use multi_agent_ai_analyst.Extraction.Guard.{HasFitting, extract_document_text-HasFitting}
use multi_agent_ai_analyst.Extraction.Measures.{items, ending, measured, extract-measured}

-- A directory of a newer version than zipfile reads raises when the file starts with 9.
abbrev parsers : Parsers
parsers = record {
  decode = ok;
  loads = λ t. ok null;
  dumps = λ v. codes "null";
  reader = λ delimiter t. pieces (map (λ line. line ∷ []) (splitlines t));
  feed = λ t. piece (codes " one ") (piece [] (piece t ended));
  infolist = λ content. elim content [
    | [] ↦ raise bad_zip_file
    | c ∷ rest ↦
        if c == 9
        then raise (other_error 1)
        else ok (
            (record { flag_bits = 0; file_size = 300 })
            ∷ (record { flag_bits = 2; file_size = 41 })
            ∷ [])
  ];
  pdf_reader = λ content. ok (record {
    is_encrypted = ok false;
    page_count = ok 2;
    page_texts = piece none (piece (some (codes "page")) ended);
  });
  word_document = λ content. ok (record {
    paragraphs = piece (codes "first") ended;
    tables = piece (piece (codes "a" ∷ codes "b" ∷ []) ended) ended;
  });
  load_workbook = λ content. ok (record {
    worksheets = ok (
        (record {
          title = codes "S";
          iter_rows =
              piece (none ∷ []) (piece (some (codes "1") ∷ none ∷ some (codes "2") ∷ []) ended);
        })
        ∷ []);
    close = ok tt;
  });
}

abbrev extracted : Text → List ℕ → (limit : ℕ) → Outcome Failure Text
extracted filename content limit =
    extract_document_text parsers (λ t. t) filename content limit 2 120

suffix_last : suffix (codes "a/b.c/d.tar.xlsx/./") ≡ codes ".xlsx"
unfolding suffix
suffix_last = refl

suffix_hidden : suffix (codes ".docx") ≡ []
unfolding suffix
suffix_hidden = refl

readable_lines_crlf : readable_lines (codes " a\r\n\r\n b c \n") ≡ codes "a" ∷ codes "b c" ∷ []
unfolding readable_lines
readable_lines_crlf = refl

workbook_text : extracted (codes "t.xlsx") (1 ∷ 2 ∷ 3 ∷ []) 40 ≡ ok (codes "Sheet: S\n1 | 2")
unfolding extract_document_text
workbook_text = refl

workbook_expands :
    extracted (codes "t.xlsx") (1 ∷ 2 ∷ []) 40
    ≡ raise (document_error (codes "The document expands to an unsafe size"))
unfolding extract_document_text
workbook_expands = refl

word_text : extracted (codes "t.docx") (1 ∷ 2 ∷ 3 ∷ []) 40 ≡ ok (codes "first\na | b")
unfolding extract_document_text
word_text = refl

pdf_text : extracted (codes "t.pdf") [] 40 ≡ ok (codes "page")
unfolding extract_document_text
pdf_text = refl

html_too_long : extracted (codes "t.html") (codes "<p>") 9 ≡ raise too_large
unfolding extract_document_text
html_too_long = refl

unsupported :
    extracted (codes "t.exe") [] 40
    ≡ raise (document_error (codes "This document format is not supported"))
unfolding extract_document_text
unsupported = refl

-- The guard lets other exceptions of the archive's reader through.
newer_archive : extracted (codes "t.docx") (9 ∷ []) 40 ≡ raise (other_error 1)
unfolding extract_document_text
newer_archive = refl

extract_document_text-IsIndexable_example : IsIndexable 40 (codes "Sheet: S\n1 | 2")
extract_document_text-IsIndexable_example =
    extract_document_text-IsIndexable parsers (λ t. t) (codes "t.xlsx") (1 ∷ 2 ∷ 3 ∷ []) 40 2 120
      (codes "Sheet: S\n1 | 2") workbook_text

extract_document_text-IsExplained_example : IsExplained (raise (other_error 1)) (other_error 1)
extract_document_text-IsExplained_example =
    extract_document_text-IsExplained parsers (λ t. t) (codes "t.docx") (9 ∷ []) 40 2 120
      (other_error 1) newer_archive

extract_document_text-HasFitting_example : HasFitting parsers (1 ∷ 2 ∷ 3 ∷ []) 2 120
unfolding is_one_of suffix
extract_document_text-HasFitting_example =
    extract_document_text-HasFitting parsers (λ t. t) (codes "t.docx") (1 ∷ 2 ∷ 3 ∷ []) 40 2 120
      (codes "first\na | b") refl word_text

extract-measured_example :
    (extract_delimited parsers (codes "a\nb") (codes ",") (empty 4)
      ≡ measured 4 (codes "a" ∷ codes "b" ∷ []) none)
    × (extract_html parsers (codes "a\nb") (empty 4)
        ≡ measured 4 (codes " one " ∷ [] ∷ codes "a\nb" ∷ []) none)
unfolding items ending splitlines join strip
extract-measured_example = extract-measured parsers (codes "a\nb") (codes ",") (codes "a\nb") 4 refl

-- ===== src/Extraction/Guard.antt =====
-- ingestion/extraction.py: which archives get past the guard.
use multi_agent_ai_analyst.Prelude.{
  ℕ, ◌≤◌, ◌≡◌, refl, true, false, inl, inr, List, Outcome, ok, raise, ◌>>=◌, ltb, any, length,
  arith, Bool-cases,
}
use multi_agent_ai_analyst.Prelude.Text.{Text}
use multi_agent_ai_analyst.Extraction.Sources.{
  Failure, document_error, bad_zip_file, other_error, Member, Parsers, suffix,
}
use multi_agent_ai_analyst.Extraction.Budget.{empty, text_of}
use multi_agent_ai_analyst.Extraction.Yields.{Yields-first, Yields, Yields-ok, Yields-after}
use multi_agent_ai_analyst.Extraction.Formats.{check, extract_into, is_one_of}
use multi_agent_ai_analyst.Extraction.{
  is_encrypted_member, uncompressed, allowed_bytes, inspected, without_bad_zip, as_unreadable,
  normalized, extract_supported, extract_document_text, guard_archive, archive_extensions,
  supported_extensions,
}

-- An archive with parts that are few enough, none of them encrypted, and not too large together.
abbrev pub Fits : (content : List ℕ) (max_members max_expansion_ratio : ℕ) → List Member → Type 0
Fits content max_members max_expansion_ratio members =
    (length members ≤ max_members)
    × (any is_encrypted_member members ≡ false)
    × (uncompressed members ≤ allowed_bytes (length content) max_expansion_ratio)

-- What the `try` of the guard says of the archive when it gives the sum of the sizes.
abbrev Inspects : Outcome Failure (List Member) → (max_members bytes : ℕ) → Type 0
Inspects directory max_members bytes =
    (members : List Member) × (directory ≡ ok members)
    × (length members ≤ max_members)
    × (any is_encrypted_member members ≡ false)
    × (bytes ≡ uncompressed members)

inspected-Inspects :
    (max_members : ℕ) (directory : Outcome Failure (List Member))
    → Yields
        (Inspects directory max_members)
        (without_bad_zip (directory >>= inspected max_members))
unfolding inspected without_bad_zip check
inspected-Inspects max_members (ok members) = elim (Bool-cases (ltb max_members (length members))) [
  | inl many ↦ rw many tt
  | inr few ↦ rw few (elim (Bool-cases (any is_encrypted_member members)) [
    | inl encrypted ↦ rw encrypted tt
    | inr plain ↦ rw plain (members, refl, ground arith, plain, refl)
  ])
]
inspected-Inspects max_members (raise (document_error message)) = tt
inspected-Inspects max_members (raise bad_zip_file) = tt
inspected-Inspects max_members (raise (other_error n)) = tt

-- The archive can be read, and it fits.
abbrev pub HasFitting : Parsers → (content : List ℕ) (max_members max_expansion_ratio : ℕ) → Type 0
HasFitting parsers content max_members max_expansion_ratio =
    (members : List Member) × (parsers.infolist content ≡ ok members)
    × Fits content max_members max_expansion_ratio members

Fits-Yields :
    (parsers : Parsers) (content : List ℕ) (max_members ratio : ℕ)
    → Yields
        (λ _. HasFitting parsers content max_members ratio)
        (guard_archive parsers content max_members ratio)
unfolding guard_archive check
Fits-Yields parsers content max_members ratio =
    let directory = parsers.infolist content in
    Yields-after _ (Inspects directory max_members)
      (without_bad_zip (directory >>= inspected max_members)) _
      (inspected-Inspects max_members directory)
      (λ bytes inspected_ok.
        let (members, read, few, plain, sum) = inspected_ok in
        elim (Bool-cases (ltb (allowed_bytes (length content) ratio) bytes)) [
          | inl unsafe ↦ rw unsafe tt
          | inr safe ↦ rw safe (members, read, (few, plain, ground arith))
        ])

-- A text comes out of a document with the suffix of an archive only if the archive's directory can be
-- read, and lists at most `max_archive_members` parts, none of them encrypted, that become at most
-- `max_expansion_ratio` times the size of the file, and at most 300 million bytes.
pub extract_document_text-HasFitting :
    (parsers : Parsers) (lower : Text → Text) (filename : Text) (content : List ℕ)
    (max_characters max_archive_members max_expansion_ratio : ℕ) (text : Text)
    → is_one_of archive_extensions (lower (suffix filename)) ≡ true
    → extract_document_text parsers lower filename content max_characters max_archive_members
        max_expansion_ratio
      ≡ ok text
    → HasFitting parsers content max_archive_members max_expansion_ratio
unfolding extract_document_text extract_supported
extract_document_text-HasFitting parsers lower filename content limit members ratio text archive e =
    let extension = lower (suffix filename) in
    let attempted = as_unreadable (extract_into parsers extension content (empty limit)) in
    Yields-ok (λ _. HasFitting parsers content members ratio) _ text
      (elim (Bool-cases (is_one_of supported_extensions extension)) [
        | inl supported ↦ rw supported (
            rw archive (
              Yields-first (HasFitting parsers content members ratio)
                (guard_archive parsers content members ratio)
                (attempted >>= λ into. normalized (text_of into))
                (Fits-Yields parsers content members ratio)))
        | inr other ↦ rw other tt
      ])
      e

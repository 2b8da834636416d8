-- ===== src/Extraction/Refusals.antt =====
-- ingestion/extraction.py: which exceptions reach the caller.
use mathlib.Core.Path.{subst}
use multi_agent_ai_analyst.Prelude.{
  ℕ, ◌≡◌, refl, Bool, true, false, ◌⊎◌, inl, inr, List, Outcome, ok, raise, ◌>>=◌, ◌>>◌, ltb,
  if◌then◌else◌, any, length, Bool-cases,
}
use multi_agent_ai_analyst.Prelude.Text.{Text, codes, join}
use multi_agent_ai_analyst.Extraction.Sources.{
  Failure, document_error, bad_zip_file, other_error, Member, Parsers, suffix,
}
use multi_agent_ai_analyst.Extraction.Budget.{empty, text_of}
use multi_agent_ai_analyst.Extraction.Formats.{check, extract_into, is_one_of}
use multi_agent_ai_analyst.Extraction.{
  is_encrypted_member, allowed_bytes, inspected, without_bad_zip, as_unreadable, is_text,
  readable_lines, normalized, extract_supported, extract_document_text, guard_archive,
  archive_extensions, supported_extensions,
}

-- What is raised, if anything is, satisfies `Q`.
abbrev Raises : {S : Type 0} → (Failure → Type 0) → Outcome Failure S → Type 0
Raises Q (ok s) = Unit
Raises Q (raise e) = Q e

module _ {S : Type 0} (Q : Failure → Type 0) where
  Raises-raise : (r : Outcome Failure S) (e : Failure) → Raises Q r → r ≡ raise e → Q e
  Raises-raise r e h eq = subst (Raises Q) eq h

  Raises-bind :
      {A : Type 0} (r : Outcome Failure A) (f : A → Outcome Failure S)
      → Raises Q r
      → ((a : A) → Raises Q (f a))
      → Raises Q (r >>= f)
  Raises-bind (ok a) f h k = k a
  Raises-bind (raise e) f h k = h

  Raises-then :
      {A : Type 0} (r : Outcome Failure A) (next : Outcome Failure S)
      → Raises Q r
      → Raises Q next
      → Raises Q (r >> next)
  Raises-then (ok a) next h k = k
  Raises-then (raise e) next h k = h

-- A `DocumentExtractionError`
abbrev pub IsRefusal : Failure → Type 0
IsRefusal e = (message : Text) × (e ≡ document_error message)

-- A refusal, or what the reading of the archive's directory raised, if that is not `BadZipFile`.
abbrev pub IsExplained : Outcome Failure (List Member) → Failure → Type 0
IsExplained directory e =
    IsRefusal e ⊎ ((n : ℕ) × (e ≡ other_error n) × (directory ≡ raise (other_error n)))

module _ (directory : Outcome Failure (List Member)) where
  check-Raises :
      (refused : Bool) (message : Text) → Raises (IsExplained directory) (check refused message)
  unfolding check
  check-Raises true message = inl (message, refl)
  check-Raises false message = tt

  as_unreadable-Raises :
      {S : Type 0} (r : Outcome Failure S) → Raises (IsExplained directory) (as_unreadable r)
  unfolding as_unreadable
  as_unreadable-Raises (ok s) = tt
  as_unreadable-Raises (raise (document_error message)) = inl (message, refl)
  as_unreadable-Raises (raise bad_zip_file) = inl (_, refl)
  as_unreadable-Raises (raise (other_error n)) = inl (_, refl)

  normalized-Raises : (text : Text) → Raises (IsExplained directory) (normalized text)
  unfolding normalized
  normalized-Raises text = elim (Bool-cases (is_text (join (codes "\n") (readable_lines text)))) [
    | inl readable ↦ rw readable tt
    | inr blank ↦ rw blank (inl (_, refl))
  ]

inspected-Raises :
    (max_members : ℕ) (directory : Outcome Failure (List Member))
    → Raises (IsExplained directory) (without_bad_zip (directory >>= inspected max_members))
unfolding inspected without_bad_zip check
inspected-Raises max_members (ok members) = elim (Bool-cases (ltb max_members (length members))) [
  | inl many ↦ rw many (inl (_, refl))
  | inr few ↦ rw few (elim (Bool-cases (any is_encrypted_member members)) [
    | inl encrypted ↦ rw encrypted (inl (_, refl))
    | inr plain ↦ rw plain tt
  ])
]
inspected-Raises max_members (raise (document_error message)) = inl (message, refl)
inspected-Raises max_members (raise bad_zip_file) = inl (_, refl)
inspected-Raises max_members (raise (other_error n)) = inr (n, refl, refl)

module _ (parsers : Parsers) (content : List ℕ) (members ratio : ℕ) where
  guard_archive-Raises :
      Raises (IsExplained (parsers.infolist content)) (guard_archive parsers content members ratio)
  unfolding guard_archive
  guard_archive-Raises =
      let directory = parsers.infolist content in
      Raises-bind (IsExplained directory) (without_bad_zip (directory >>= inspected members)) _
        (inspected-Raises members directory)
        (λ bytes. check-Raises directory (ltb (allowed_bytes (length content) ratio) bytes) _)

  guarded-Raises :
      (archive : Bool)
      → Raises
          (IsExplained (parsers.infolist content))
          (if archive then guard_archive parsers content members ratio else ok tt)
  guarded-Raises true = guard_archive-Raises
  guarded-Raises false = tt

  extract_supported-Raises :
      (extension : Text) (limit : ℕ)
      → Raises
          (IsExplained (parsers.infolist content))
          (extract_supported parsers extension content limit members ratio)
  unfolding extract_supported
  extract_supported-Raises extension limit =
      let directory = parsers.infolist content in
      let attempted = extract_into parsers extension content (empty limit) in
      Raises-then (IsExplained directory) _
        (as_unreadable attempted >>= λ into. normalized (text_of into))
        (guarded-Raises (is_one_of archive_extensions extension))
        (Raises-bind (IsExplained directory) (as_unreadable attempted) _
          (as_unreadable-Raises directory attempted)
          (λ into. normalized-Raises directory (text_of into)))

-- Whatever `extract_document_text` raises is a `DocumentExtractionError`, or it is what the reading
-- of the archive's directory raised, and that is not `BadZipFile`.
pub extract_document_text-IsExplained :
    (parsers : Parsers) (lower : Text → Text) (filename : Text) (content : List ℕ)
    (max_characters max_archive_members max_expansion_ratio : ℕ) (e : Failure)
    → extract_document_text parsers lower filename content max_characters max_archive_members
        max_expansion_ratio
      ≡ raise e
    → IsExplained (parsers.infolist content) e
unfolding extract_document_text
extract_document_text-IsExplained parsers lower filename content limit members ratio e eq =
    let extension = lower (suffix filename) in
    Raises-raise (IsExplained (parsers.infolist content)) _ e
      (elim (Bool-cases (is_one_of supported_extensions extension)) [
        | inl supported ↦
            rw supported (extract_supported-Raises parsers content members ratio extension limit)
        | inr other ↦ rw other (inl (_, refl))
      ])
      eq

-- ===== src/Extraction/Measures.antt =====
-- ingestion/extraction.py: stopping at the budget gives what measuring everything afterwards does.
use multi_agent_ai_analyst.Prelude.{
  ℕ, ◌+◌, ◌≤◌, ◌≡◌, refl, ap, ◌∙◌, sym, true, false, List, [], ◌∷◌, ◌++◌, map, Option, none, some,
  Outcome, ok, raise, ◌>>=◌, ltb, if◌then◌else◌, filter, length, arith, Bool-cases, inl, inr,
  append-nil, append_assoc,
}
use multi_agent_ai_analyst.Prelude.Text.{Text, strip, join}
use multi_agent_ai_analyst.Extraction.Sources.{
  Failure, Pieces, ended, broke, piece, for_each, Parsers,
}
use multi_agent_ai_analyst.Extraction.Budget.{Accumulator, empty, add, too_large, width}
use multi_agent_ai_analyst.Extraction.Formats.{separator, extract_delimited, extract_html}
use multi_agent_ai_analyst.Extraction.{is_text}

-- The items of an iterator, and the exception that it ends with.
unfoldable pub items : {A : Type 0} → Pieces A → List A
items ended = []
items (broke e) = []
items (piece x rest) = x ∷ items rest

unfoldable pub ending : {A : Type 0} → Pieces A → Option Failure
ending ended = none
ending (broke e) = some e
ending (piece x rest) = ending rest

abbrev pub unless : {S : Type 0} → Option Failure → S → Outcome Failure S
unless none s = ok s
unless (some e) s = raise e

-- All the texts at once, on top of what is there: the texts that are not empty, if they fit.
grown : Accumulator → List Text → Option Failure → Outcome Failure Accumulator
unfolding filter is_text
grown into texts failure =
    let kept = filter is_text texts in
    if ltb into.limit (into.used + width kept)
    then raise too_large
    else unless failure (record into { used = into.used + width kept; parts = into.parts ++ kept })

grown-nil :
    (into : Accumulator) (failure : Option Failure)
    → into.used ≤ into.limit
    → grown into [] failure ≡ unless failure into
unfolding grown filter
grown-nil into failure h =
    let fits : ltb into.limit (into.used + 0) ≡ false = ground arith in
    let same : into.used + 0 ≡ into.used = omega arith in
    rw fits (rw (append-nil into.parts) (rw same refl))

-- One text more at the front is added first, whatever is done with the rest.
grown-cons :
    (t : Text) (into : Accumulator) (next : Accumulator → Outcome Failure Accumulator)
    (texts : List Text) (failure : Option Failure)
    → into.used ≤ into.limit
    → ((s : Accumulator) → s.used ≤ s.limit → next s ≡ grown s texts failure)
    → (add t into >>= next) ≡ grown into (t ∷ texts) failure
unfolding grown add filter is_text
grown-cons [] into next texts failure h k = k into h
grown-cons (c ∷ t) into next texts failure h k =
    let size = length (c ∷ t) + 1 in
    let kept = filter is_text texts in
    let sum : (into.used + size) + width kept ≡ into.used + (size + width kept) = omega arith in
    elim (Bool-cases (ltb into.limit (into.used + size))) [
      | inl over ↦
          let more : ltb into.limit (into.used + (size + width kept)) ≡ true = ground arith in
          rw over (rw more refl)
      | inr fits ↦ rw fits (
          let added : Accumulator = record into {
            used = into.used + size;
            parts = into.parts ++ (c ∷ t) ∷ [];
          } in
          let moved : grown added texts failure ≡ grown into ((c ∷ t) ∷ texts) failure =
            rw sum (rw (append_assoc into.parts ((c ∷ t) ∷ []) kept) refl) in
          k added (ground arith) ∙ moved)
    ]

for_each-grown :
    {A : Type 0} (text : A → Text) (xs : Pieces A) (into : Accumulator)
    → into.used ≤ into.limit
    → for_each (λ x. add (text x)) xs into ≡ grown into (map text (items xs)) (ending xs)
unfolding for_each grown items ending add filter is_text
for_each-grown text ended into h = sym (grown-nil into none h)
for_each-grown text (broke e) into h = sym (grown-nil into (some e) h)
for_each-grown text (piece x rest) into h =
    grown-cons (text x) into (for_each (λ y. add (text y)) rest) (map text (items rest))
      (ending rest) h (λ s below. for_each-grown text rest s below)

-- What measuring all the texts at the end gives: the texts that are not empty, if these with a
-- separator for each are within the limit, and the exception that the parser ended with, if any.
abbrev pub measured : (limit : ℕ) → List Text → Option Failure → Outcome Failure Accumulator
measured limit texts failure =
    let kept = filter is_text texts in
    if ltb limit (width kept)
    then raise too_large
    else unless failure (record { limit = limit; used = width kept; parts = kept })

map-same : (texts : List Text) → map (λ t. t) texts ≡ texts
map-same [] = refl
map-same (t ∷ texts) = ap (λ rest. t ∷ rest) (map-same texts)

empty-fits : (limit : ℕ) → (empty limit).used ≤ (empty limit).limit
unfolding empty
empty-fits limit = omega arith

grown-empty :
    (limit : ℕ) (texts : List Text) (failure : Option Failure)
    → grown (empty limit) texts failure ≡ measured limit texts failure
unfolding grown empty
grown-empty limit texts failure =
    let zero_add : 0 + width (filter is_text texts) ≡ width (filter is_text texts) = omega arith in
    rw zero_add refl

-- For a file that can be decoded, the extraction of its rows or of its HTML data, which stops at the
-- first text beyond the budget, gives what collecting every text and measuring them afterwards gives.
pub extract-measured :
    (parsers : Parsers) (content : List ℕ) (delimiter text : Text) (limit : ℕ)
    → parsers.decode content ≡ ok text
    → (extract_delimited parsers content delimiter (empty limit)
        ≡ measured limit
            (map (λ row. join separator (map strip row)) (items (parsers.reader delimiter text)))
            (ending (parsers.reader delimiter text)))
      × (extract_html parsers content (empty limit)
          ≡ measured limit (items (parsers.feed text)) (ending (parsers.feed text)))
unfolding extract_delimited extract_html
extract-measured parsers content delimiter text limit e =
    let rows = parsers.reader delimiter text in
    (
      rw e (
          for_each-grown (λ row. join separator (map strip row)) rows (empty limit)
            (empty-fits limit)
          ∙ grown-empty limit _ _),
      rw e (
          for_each-grown (λ t. t) (parsers.feed text) (empty limit) (empty-fits limit)
          ∙ (ap (λ texts. grown (empty limit) texts (ending (parsers.feed text)))
                (map-same (items (parsers.feed text)))
              ∙ grown-empty limit _ _)),
    )

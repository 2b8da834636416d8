-- ===== src/Extraction/Yields.antt =====
-- ingestion/extraction.py: what a part that may raise returns, through every construct of the code.
use mathlib.Core.Path.{subst}
use multi_agent_ai_analyst.Prelude.{
  ◌≡◌, Bool, true, false, Outcome, ok, raise, ◌>>=◌, ◌>>◌, if◌then◌else◌,
}
use multi_agent_ai_analyst.Extraction.Sources.{
  document_error, bad_zip_file, other_error, Failure, Pieces, ended, broke, piece, for_each,
}
use multi_agent_ai_analyst.Extraction.Formats.{finally}
use multi_agent_ai_analyst.Extraction.{as_unreadable}

-- What is returned, if anything is, satisfies `P`.
abbrev pub Yields : {S : Type 0} → (S → Type 0) → Outcome Failure S → Type 0
Yields P (ok s) = P s
Yields P (raise e) = Unit

module _ {S : Type 0} (P : S → Type 0) where
  pub Yields-ok : (r : Outcome Failure S) (s : S) → Yields P r → r ≡ ok s → P s
  Yields-ok r s h e = subst (Yields P) e h

  pub Yields-bind :
      {A : Type 0} (r : Outcome Failure A) (f : A → Outcome Failure S)
      → ((a : A) → Yields P (f a))
      → Yields P (r >>= f)
  Yields-bind (ok a) f h = h a
  Yields-bind (raise e) f h = tt

  pub Yields-then :
      {A : Type 0} (r : Outcome Failure A) (next : Outcome Failure S)
      → Yields P next
      → Yields P (r >> next)
  Yields-then (ok a) next h = h
  Yields-then (raise e) next h = tt

  pub Yields-finally :
      (r : Outcome Failure S) (closed : Outcome Failure (Unit {0}))
      → Yields P r
      → Yields P (finally r closed)
  unfolding finally
  Yields-finally r (ok tt) h = h
  Yields-finally r (raise e) h = tt

  pub Yields-as_unreadable : (r : Outcome Failure S) → Yields P r → Yields P (as_unreadable r)
  unfolding as_unreadable
  Yields-as_unreadable (ok s) h = h
  Yields-as_unreadable (raise (document_error message)) h = tt
  Yields-as_unreadable (raise bad_zip_file) h = tt
  Yields-as_unreadable (raise (other_error n)) h = tt

  pub Yields-after :
      {A : Type 0} (Q : A → Type 0) (r : Outcome Failure A) (f : A → Outcome Failure S)
      → Yields Q r
      → ((a : A) → Q a → Yields P (f a))
      → Yields P (r >>= f)
  Yields-after Q (ok a) f h k = k a h
  Yields-after Q (raise e) f h k = tt

  pub Yields-if :
      (b : Bool) (x y : Outcome Failure S) → Yields P x → Yields P y → Yields P (if b then x else y)
  Yields-if true x y h k = h
  Yields-if false x y h k = k

  pub Yields-for_each :
      {A : Type 0} (body : A → S → Outcome Failure S)
      → ((x : A) (s : S) → P s → Yields P (body x s))
      → (xs : Pieces A) (s : S) → P s
      → Yields P (for_each body xs s)
  unfolding for_each
  Yields-for_each body k ended s h = h
  Yields-for_each body k (broke e) s h = tt
  Yields-for_each body k (piece x rest) s h =
      Yields-after P (body x s) (for_each body rest) (k x s h)
        (λ s' h'. Yields-for_each body k rest s' h')

-- What the first part says of the world alone is still so when the rest has been done.
pub Yields-first :
    (P : Type 0) {A S : Type 0} (r : Outcome Failure A) (next : Outcome Failure S)
    → Yields (λ a. P) r
    → Yields (λ s. P) (r >> next)
Yields-first P (ok a) (ok s) h = h
Yields-first P (ok a) (raise e) h = tt
Yields-first P (raise e) next h = tt

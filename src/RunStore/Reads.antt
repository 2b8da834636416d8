-- ===== src/RunStore/Reads.antt =====
-- What readers see: the page of an organization's runs, and the citations of a finished run.
use multi_agent_ai_analyst.Prelude.{
  append_assoc, some, append-nil, sym, ℕ, ◌+◌, ◌≡◌, refl, List, [], ◌∷◌, ◌++◌, filter, arith, ◌==◌,
}
use multi_agent_ai_analyst.Prelude.Text.{Text}
use multi_agent_ai_analyst.Agents.State.{Citation}
use multi_agent_ai_analyst.RunStore.Rows.{Ids, Run, RunCitation, Tables, Db}
use multi_agent_ai_analyst.RunStore.{
  completed, list_runs, citations_for, mark_completed, add_citations, append_event, set_run,
  citation_row,
}
use multi_agent_ai_analyst.Database.Queries.{Ascending, order_by-Ascending, filter-append}
use multi_agent_ai_analyst.Database.Queries.Newest.{IsNewestPage, order_by_desc-IsNewestPage}

-- A page of runs is of the organization's runs: it has as many as the limit and those allow, newest
-- first, and together with other rows, none of them newer than a run of the page, it is those runs, each
-- as often as the table has it.
pub list_runs-IsNewestPage :
    (t : Tables) (organization_id limit : ℕ) (db : Db t)
    → IsNewestPage
        (λ r. r.created_at)
        limit
        (filter (λ r. r.organization_id == organization_id) (t.runs.rows db.runs))
        (list_runs t organization_id limit db)
unfolding list_runs
list_runs-IsNewestPage t organization_id limit db =
    order_by_desc-IsNewestPage (λ r. r.created_at) limit
      (filter (λ r. r.organization_id == organization_id) (t.runs.rows db.runs))

module _ (t : Tables) (ids : Ids) (run : Run) where
  -- The rows of an answer's citations, numbered by their place in it.
  unfoldable pub numbered : (position : ℕ) → List Citation → List RunCitation
  numbered position [] = []
  numbered position (citation ∷ rest) =
      citation_row ids run position citation ∷ numbered (position + 1) rest

  numbered-Ascending :
      (position : ℕ) (citations : List Citation)
      → Ascending (λ c. c.position) (numbered position citations)
  unfolding numbered citation_row
  numbered-Ascending position [] = tt
  numbered-Ascending position (c ∷ []) = tt
  numbered-Ascending position (c ∷ d ∷ rest) =
      (omega arith, numbered-Ascending (position + 1) (d ∷ rest))

  filter-numbered :
      (position : ℕ) (citations : List Citation)
      → filter (λ c. c.run_id == run.id) (numbered position citations) ≡ numbered position citations
  unfolding numbered citation_row filter
  filter-numbered position [] = refl
  filter-numbered position (c ∷ rest) = ground (arith, filter-numbered (position + 1) rest)

  rows-add_citations :
      (position : ℕ) (citations : List Citation) (db : Db t)
      → t.citations.rows (add_citations t ids run position citations db).citations
        ≡ t.citations.rows db.citations ++ numbered position citations
  unfolding add_citations numbered
  rows-add_citations position [] db = sym (append-nil _)
  rows-add_citations position (citation ∷ rest) db =
      rw
        (rows-add_citations (position + 1) rest (record db {
          citations = t.citations.insert (citation_row ids run position citation) db.citations;
        }))
        (rw (t.citations.rows-insert (citation_row ids run position citation) db.citations) (
          append_assoc (t.citations.rows db.citations) (citation_row ids run position citation ∷ [])
            (numbered (position + 1) rest)))

  -- A finished run has its answer's citations, one row each, in the answer's order, when it had none
  -- before.
  pub mark_completed-citations_for :
      (now : ℕ) (answer : Text) (citations : List Citation) (db : Db t)
      → filter (λ c. c.run_id == run.id) (t.citations.rows db.citations) ≡ []
      → citations_for t run.id (mark_completed t ids now run answer citations db)
        ≡ numbered 0 citations
  unfolding citations_for mark_completed append_event set_run
  mark_completed-citations_for now answer citations db none_yet =
      rw
        (rows-add_citations 0 citations (
          set_run t now run.id
            (λ r. record r { status = completed; answer = some answer; completed_at = some now })
            db))
        (rw
          (filter-append (λ c. c.run_id == run.id) (t.citations.rows db.citations)
            (numbered 0 citations))
          (rw none_yet (
            rw (filter-numbered 0 citations) (
              order_by-Ascending (λ c. c.position) (numbered 0 citations)
                (numbered-Ascending 0 citations)))))

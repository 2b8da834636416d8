-- ===== src/Worker/Settling.antt =====
-- What the work on a run, and the worker's giving up on it, make of the run's row.
use multi_agent_ai_analyst.Prelude.{
  ◌+◌, All-mono, ℕ, ◌≡◌, refl, Bool, true, List, [], ◌∷◌, some, first, ◌==◌, arith, All, Bool-cases,
  inl, inr,
}
use multi_agent_ai_analyst.Prelude.Text.{Text}
use multi_agent_ai_analyst.Database.{change_where}
use multi_agent_ai_analyst.Database.Queries.{All-filter}
use multi_agent_ai_analyst.Agents.State.{Citation}
use multi_agent_ai_analyst.Agents.Action.{Action, pure, ◌>>=◌}
use multi_agent_ai_analyst.Agents.Action.Preserves.{Preserves}
use multi_agent_ai_analyst.Agents.Action.Triple.{
  After, Triple, Triple-Preserves, Triple-attempt, Triple-bind,
}
use multi_agent_ai_analyst.RunStore.Rows.{failed, completed, running, Run, Db, is_terminal}
use multi_agent_ai_analyst.RunStore.{
  set_run, append_event, mark_running, mark_completed, mark_failed,
}
use multi_agent_ai_analyst.Worker.Environment.{Site, World}
use multi_agent_ai_analyst.Worker.Jobs.{read, on_db, drive, with_run, run_of}
use multi_agent_ai_analyst.Worker.Rows.{
  rows_of, rows_of-set_run, add_citations_runs, Has, on_services-Preserves, read-Preserves,
  answer-Preserves,
}
use multi_agent_ai_analyst.Worker.Others.{found-id}
use multi_agent_ai_analyst.Worker.{fail_run}

abbrev pub IsOne : List Run → Type 0
IsOne [] = ⊥
IsOne (r ∷ []) = Unit
IsOne (r ∷ s ∷ rest) = ⊥

-- One row, of a run that has ended.
abbrev pub HasEnded : List Run → Type 0
HasEnded [] = ⊥
HasEnded (r ∷ []) = is_terminal r.status ≡ true
HasEnded (r ∷ s ∷ rest) = ⊥

change_where-IsOne :
    (p : Run → Bool) (f : Run → Run) (rows : List Run) → IsOne rows → IsOne (change_where p f rows)
change_where-IsOne p f [] h = h
change_where-IsOne p f (r ∷ []) h = tt
change_where-IsOne p f (r ∷ s ∷ rest) h = h

change_where-HasEnded :
    (p : Run → Bool) (f : Run → Run) (rows : List Run)
    → All (λ r. p r ≡ true) rows
    → ((r : Run) → is_terminal (f r).status ≡ true)
    → IsOne rows
    → HasEnded (change_where p f rows)
change_where-HasEnded p f [] all ends h = h
change_where-HasEnded p f (r ∷ []) all ends h = rw all.0 (ends r)
change_where-HasEnded p f (r ∷ s ∷ rest) all ends h = h

module _ {S R : Type 0} (site : Site S R) (id : ℕ) where
  abbrev pub Holds : (List Run → Type 0) → World site → Type 0
  Holds P w = P (rows_of site.tables id w.db)

  Preserves-Holds :
      {A : Type 0} (P : List Run → Type 0) (m : Action (World site) A)
      → ((rows : List Run) → Preserves (Has site id rows) m)
      → Preserves (Holds P) m
  Preserves-Holds P m k = record { at = λ w h. rw ((k (rows_of site.tables id w.db)).at w refl) h }

  Triple-Holds :
      {A : Type 0} (P : List Run → Type 0) (m : Action (World site) A)
      → ((rows : List Run) → Preserves (Has site id rows) m)
      → Triple (Holds P) m (λ a. Holds P) (λ e. Holds P)
  Triple-Holds P m k = Triple-Preserves (Holds P) m (Preserves-Holds P m k)

  module _ (run : Run) (same : (run.id == id) ≡ true) where
    own : (db : Db site.tables) → All (λ r. (r.id == run.id) ≡ true) (rows_of site.tables id db)
    own db =
        All-mono _ _ (rows_of site.tables id db) (λ r here. ground (arith, here, same))
          (All-filter (λ r. r.id == id) (site.tables.runs.rows db.runs))

    marked_running :
        (now : ℕ) (db : Db site.tables)
        → IsOne (rows_of site.tables id db)
        → IsOne (rows_of site.tables id (mark_running site.tables now run db))
    unfolding mark_running
    marked_running now db h =
        let f = λ (r : Run). record r {
          status = running;
          started_at = some now;
          attempt_count = r.attempt_count + 1;
        } in
        rw (rows_of-set_run site.tables id now run.id f db (λ r. refl)) (
          change_where-IsOne (λ r. r.id == run.id) (λ r. record (f r) { updated_at = now })
            (rows_of site.tables id db) h)

    marked_completed :
        (now : ℕ) (text : Text) (citations : List Citation) (db : Db site.tables)
        → IsOne (rows_of site.tables id db)
        → HasEnded
            (rows_of site.tables id (mark_completed site.tables site.ids now run text citations db))
    unfolding mark_completed append_event
    marked_completed now text citations db h =
        let f = λ (r : Run). record r {
          status = completed;
          answer = some text;
          completed_at = some now;
        } in
        rw
          (add_citations_runs site.tables site.ids run 0 citations
            (set_run site.tables now run.id f db))
          (rw (rows_of-set_run site.tables id now run.id f db (λ r. refl)) (
            change_where-HasEnded (λ r. r.id == run.id) (λ r. record (f r) { updated_at = now })
              (rows_of site.tables id db) (own db) (λ r. refl) h))

    marked_failed :
        (now : ℕ) (message : Text) (db : Db site.tables)
        → IsOne (rows_of site.tables id db)
        → HasEnded (rows_of site.tables id (mark_failed site.tables now run message db))
    unfolding mark_failed append_event
    marked_failed now message db h =
        let f = λ (r : Run). record r {
          status = failed;
          error = some message;
          completed_at = some now;
        } in
        rw (rows_of-set_run site.tables id now run.id f db (λ r. refl)) (
          change_where-HasEnded (λ r. r.id == run.id) (λ r. record (f r) { updated_at = now })
            (rows_of site.tables id db) (own db) (λ r. refl) h)

    drive-Triple : Triple (Holds IsOne) (drive site run) (λ a. Holds HasEnded) (λ e. Holds IsOne)
    unfolding drive on_db pure
    drive-Triple =
        Triple-bind (λ a. Holds IsOne) _ _
          (Triple-Holds IsOne _ (λ rows. read-Preserves site id rows _))
          (λ now.
            Triple-bind (λ a. Holds IsOne) _ _ (record { at = λ w h. marked_running now w.db h })
              (λ _.
                Triple-bind (λ a. Holds IsOne) _ _
                  (Triple-Holds IsOne _ (λ rows. on_services-Preserves site id rows _))
                  (λ _.
                    Triple-bind (λ a. Holds IsOne) _ _
                      (Triple-Holds IsOne _ (λ rows. answer-Preserves site id rows run))
                      (λ state.
                        Triple-bind (λ a. Holds IsOne) _ _
                          (Triple-Holds IsOne _ (λ rows. read-Preserves site id rows _))
                          (λ later.
                            Triple-bind (λ a. Holds HasEnded) _ _
                              (record {
                                at = λ w h.
                                    marked_completed later state.answer state.citations w.db h;
                              })
                              (λ _.
                                Triple-attempt (λ a. Holds HasEnded) (λ e. Holds HasEnded) _ _ _
                                  (Triple-Holds HasEnded _
                                    (λ rows. on_services-Preserves site id rows _))
                                  (λ a. record { at = λ w h. h })
                                  (λ e. record { at = λ w h. h })))))))

  -- The run that the worker finds under the id.
  found :
      (w : World site)
      → Holds IsOne w
      → (run : Run) × (run_of site id w.db ≡ some run) × (rows_of site.tables id w.db ≡ run ∷ [])
  unfolding run_of
  found w h = go (rows_of site.tables id w.db) refl h
    where
      go :
          (rows : List Run)
          → rows_of site.tables id w.db ≡ rows
          → IsOne rows
          → (run : Run) × (first (rows_of site.tables id w.db) ≡ some run)
            × (rows_of site.tables id w.db ≡ run ∷ [])
      go [] e h = absurd h
      go (run ∷ []) e h = (run, rw e refl, e)
      go (run ∷ other ∷ rest) e h = absurd h

  pub with_run-After :
      (w : World site)
      → Holds IsOne w
      → After (λ a. Holds HasEnded) (λ e. Holds IsOne) (with_run site (run_of site id w.db) w)
  unfolding with_run
  with_run-After w h =
      let here = found w h in
      rw here.1 (elim (Bool-cases (is_terminal here.0.status)) [
        | inl ended ↦ rw ended (rw here.2 ended)
        | inr going ↦ rw going ((drive-Triple here.0 (found-id site id w.db here.0 here.1)).at w h)
      ])

  pub fail_run-After :
      (refused : Bool) (w : World site)
      → Holds IsOne w
      → After (λ a. Holds HasEnded) (λ e w. ⊥) (fail_run site refused (run_of site id w.db) w)
  unfolding fail_run read on_db ◌>>=◌
  fail_run-After refused w h =
      let here = found w h in
      rw here.1 (elim (Bool-cases (is_terminal here.0.status)) [
        | inl ended ↦ rw ended (rw here.2 ended)
        | inr going ↦
            rw going (marked_failed here.0 (found-id site id w.db here.0 here.1) _ _ w.db h)
      ])

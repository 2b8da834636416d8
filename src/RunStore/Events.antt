-- ===== src/RunStore/Events.antt =====
-- The events of a run are numbered without gaps, and a reader that resumes misses none.
use multi_agent_ai_analyst.Prelude.{
  All-mono, drop-append, drop-append, ltb, ◌≢◌, length, ◌∙◌, append_assoc, ap, ==_iff, drop, inl,
  inr, Bool-cases, All-append, append-nil, sym, some, ◌==◌, filter, filter, ℕ, ◌+◌, ◌≡◌, refl, List,
  [], ◌∷◌, ◌++◌, All, arith,
}
use multi_agent_ai_analyst.RunStore.Rows.{Ids, RunEvent, Tables, Db}
use multi_agent_ai_analyst.RunStore.{
  events_since, completed, create_run, append_event, mark_running, mark_completed, mark_failed,
  set_run, events_of,
}
use multi_agent_ai_analyst.RunStore.Changes.{
  Change, creation, event, start, completion, failure, verdict, charge, RespectsOwner, change,
  changes, add_citations_events, record_feedback_events, consume_daily_quota_events,
}
use multi_agent_ai_analyst.Database.Queries.{
  NumberedFrom-drop, order_by, order_by-NumberedFrom, filter-NumberedFrom, filter-none, filter-both,
  filter-append, max_of-NumberedFrom, NumberedFrom-snoc, NumberedFrom, max_of,
}

-- A change adds no event, or one with the next number of its run.
data Appends (owner : ℕ → ℕ) : List RunEvent → List RunEvent → Type 0 where
  no_event : {old : List RunEvent} → Appends owner old old
  one_event :
      {old : List RunEvent} (e : RunEvent)
      → e.organization_id ≡ owner e.run_id
      → e.sequence ≡ max_of (λ e. e.sequence) (filter (λ d. d.run_id == e.run_id) old) + 1
      → Appends owner old (old ++ e ∷ [])

-- Events of the run `id`, numbered from one, in the organization that owns it.
abbrev pub IsHistory : (owner : ℕ → ℕ) (id : ℕ) → List RunEvent → Type 0
IsHistory owner id events =
    NumberedFrom (λ e. e.sequence) 0 events
    × All (λ e. (e.run_id ≡ id) × (e.organization_id ≡ owner id)) events

module _ (t : Tables) (ids : Ids) (owner : ℕ → ℕ) where
  Appends-insert :
      (e : RunEvent) (s : t.events.State)
      → e.organization_id ≡ owner e.run_id
      → e.sequence
        ≡ max_of (λ e. e.sequence) (filter (λ d. d.run_id == e.run_id) (t.events.rows s)) + 1
      → Appends owner (t.events.rows s) (t.events.rows (t.events.insert e s))
  Appends-insert e s own next = rw (t.events.rows-insert e s) (one_event e own next)

  change-Appends :
      (c : Change) (db : Db t)
      → RespectsOwner owner c
      → Appends owner (t.events.rows db.events) (t.events.rows (change t ids c db).events)
  unfolding change create_run append_event mark_running mark_completed mark_failed set_run
  change-Appends (creation now id organization_id user_id question) db own =
      Appends-insert _ db.events own refl
  change-Appends (event run event_type payload) db own = Appends-insert _ db.events own refl
  change-Appends (start now run) db own = no_event
  change-Appends (completion now run answer citations) db own =
      rw
        (add_citations_events t ids run 0 citations (
          set_run t now run.id
            (λ r. record r { status = completed; answer = some answer; completed_at = some now })
            db))
        (Appends-insert _ db.events own refl)
  change-Appends (failure now run message) db own = Appends-insert _ db.events own refl
  change-Appends (verdict run user_id approved comment) db own =
      rw (record_feedback_events t ids run user_id approved comment db) no_event
  change-Appends (charge today organization_id limit) db own =
      rw (consume_daily_quota_events t ids today organization_id limit db) no_event

  module _ (id : ℕ) where
    -- What a list of new events is: `new` continues `old`.
    unfoldable pub Continues : List RunEvent → List RunEvent → Type 0
    Continues old new = (more : List RunEvent) × (new ≡ old ++ more)

    of_run : List RunEvent → List RunEvent
    of_run = filter (λ e. e.run_id == id)

    IsHistory-snoc :
        (xs : List RunEvent) (e : RunEvent)
        → e.run_id ≡ id
        → e.organization_id ≡ owner e.run_id
        → e.sequence ≡ max_of (λ e. e.sequence) xs + 1
        → IsHistory owner id xs
        → IsHistory owner id (xs ++ e ∷ [])
    IsHistory-snoc xs e same own next h = (
      NumberedFrom-snoc (λ e. e.sequence) 0 xs e h.0
          (omega (arith, next, max_of-NumberedFrom (λ e. e.sequence) 0 xs h.0)),
      All-append _ xs (e ∷ []) h.1 ((same, ground (arith, own)), tt),
    )

    Appends-IsHistory :
        {old new : List RunEvent}
        → Appends owner old new
        → IsHistory owner id (of_run old)
        → IsHistory owner id (of_run new) × Continues (of_run old) (of_run new)
    unfolding of_run Continues filter
    Appends-IsHistory no_event h = (h, ([], sym (append-nil _)))
    Appends-IsHistory {old} (one_event e own next) h =
        rw (filter-append (λ e. e.run_id == id) old (e ∷ [])) (elim (Bool-cases (e.run_id == id)) [
          | inl same ↦ rw same (
            IsHistory-snoc (of_run old) e (ground arith) own
                (next
                  ∙ ap (λ i. max_of (λ d. d.sequence) (filter (λ d. d.run_id == i) old) + 1)
                      ((==_iff e.run_id id).0 same))
                h,
            (e ∷ [], refl),
          )
          | inr other ↦
              rw other (rw (append-nil (of_run old)) (h, ([], sym (append-nil (of_run old)))))
        ])

    pub changes-IsHistory :
        (cs : List Change) (db : Db t)
        → All (RespectsOwner owner) cs
        → IsHistory owner id (events_of t id db)
        → IsHistory owner id (events_of t id (changes t ids cs db))
          × Continues (events_of t id db) (events_of t id (changes t ids cs db))
    unfolding changes Continues of_run
    changes-IsHistory [] db own h = (h, ([], sym (append-nil _)))
    changes-IsHistory (c ∷ cs) db own h =
        let step = Appends-IsHistory (change-Appends c db own.0) h in
        let rest = changes-IsHistory cs (change t ids c db) own.1 step.0 in
        (
          rest.0,
          (
            step.1.0 ++ rest.1.0,
            rest.1.1
                ∙ (ap (λ xs. xs ++ rest.1.0) step.1.1
                    ∙ append_assoc (events_of t id db) step.1.0 rest.1.0),
          ),
        )

    pub events_since-drop :
        (n : ℕ) (db : Db t)
        → IsHistory owner id (events_of t id db)
        → events_since t (owner id) id n db ≡ drop n (events_of t id db)
    unfolding events_since
    events_since-drop n db h =
        rw
          (filter-both (λ e. e.run_id == id) (λ e. e.organization_id == owner id)
            (λ e. ltb n e.sequence) (t.events.rows db.events)
            (All-mono _ _ (events_of t id db) (λ e p. ground (arith, p.1)) h.1))
          (rw (filter-NumberedFrom (λ e. e.sequence) n 0 n (events_of t id db) (omega arith) h.0) (
            order_by-NumberedFrom (λ e. e.sequence) (0 + n) (drop n (events_of t id db))
              (NumberedFrom-drop (λ e. e.sequence) 0 n (events_of t id db) h.0)))

    -- A reader that has the history of a run, and asks for the events since its last after any
    -- further changes, gets the rest: what it has and what it gets are the run's events then. The
    -- changes leave each run with its organization, the run's events are numbered from one when the
    -- reader starts, and it asks in the run's own organization.
    pub events_since_resumes :
        (cs : List Change) (db : Db t)
        → All (RespectsOwner owner) cs
        → IsHistory owner id (events_of t id db)
        → events_of t id db
            ++ events_since t (owner id) id (length (events_of t id db)) (changes t ids cs db)
          ≡ events_of t id (changes t ids cs db)
    unfolding Continues
    events_since_resumes cs db own h =
        let after = changes-IsHistory cs db own h in
        rw (events_since-drop (length (events_of t id db)) (changes t ids cs db) after.0) (
          rw after.1.1
            (ap (λ xs. events_of t id db ++ xs) (drop-append (events_of t id db) after.1.0)))

    -- Another organization than the run's gets no event of it, after any changes that leave each run
    -- with its organization, from a state where the run's events are its organization's.
    pub events_since_tenant :
        (organization n : ℕ) (cs : List Change) (db : Db t)
        → All (RespectsOwner owner) cs
        → IsHistory owner id (events_of t id db)
        → organization ≢ owner id
        → events_since t organization id n (changes t ids cs db) ≡ []
    unfolding events_since order_by
    events_since_tenant organization n cs db own h other =
        rw
          (filter-none (λ e. e.run_id == id) (λ e. e.organization_id == organization)
            (λ e. ltb n e.sequence) (t.events.rows (changes t ids cs db).events)
            (All-mono _ _ (events_of t id (changes t ids cs db)) (λ e p. ground (arith, p.1, other))
              (changes-IsHistory cs db own h).0.1))
          refl

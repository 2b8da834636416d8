-- ===== src/RunStore/Changes.antt =====
-- A sequence of writes of the run store, in the order in which they commit.
use multi_agent_ai_analyst.Prelude.{arith, ◌+◌, ℕ, ◌≡◌, refl, Bool, List, [], ◌∷◌, Option}
use multi_agent_ai_analyst.Prelude.Text.{Text}
use multi_agent_ai_analyst.Agents.State.{Citation}
use multi_agent_ai_analyst.RunStore.Rows.{Ids, Run, Tables, Db}
use multi_agent_ai_analyst.RunStore.{
  create_run, citation_row, append_event, ensure_usage_row, ensured, store_feedback, mark_running,
  mark_completed, mark_failed, add_citations, record_feedback, consume_daily_quota,
}

pub data Change : Type 0 where
  creation : (now id organization_id : ℕ) (user_id : Option ℕ) (question : Text) → Change
  event : Run → Text → List (Text × Text) → Change
  start : (now : ℕ) → Run → Change
  completion : (now : ℕ) → Run → Text → List Citation → Change
  failure : (now : ℕ) → Run → Text → Change
  verdict : Run → Option ℕ → Bool → Option Text → Change
  charge : (today organization_id limit : ℕ) → Change

-- The organization of the run that a change is about is the one that owns the run.
abbrev pub RespectsOwner : (ℕ → ℕ) → Change → Type 0
RespectsOwner owner (creation now id organization_id user_id question) = organization_id ≡ owner id
RespectsOwner owner (event run event_type payload) = run.organization_id ≡ owner run.id
RespectsOwner owner (completion now run answer citations) = run.organization_id ≡ owner run.id
RespectsOwner owner (failure now run message) = run.organization_id ≡ owner run.id
RespectsOwner owner _ = Unit

module _ (t : Tables) (ids : Ids) where
  unfoldable pub change : Change → Db t → Db t
  unfolding create_run append_event mark_running mark_completed mark_failed record_feedback
      consume_daily_quota
  change (creation now id organization_id user_id question) db =
      (create_run t ids now id organization_id user_id question db).1
  change (event run event_type payload) db = append_event t run event_type payload db
  change (start now run) db = mark_running t now run db
  change (completion now run answer citations) db = mark_completed t ids now run answer citations db
  change (failure now run message) db = mark_failed t now run message db
  change (verdict run user_id approved comment) db =
      record_feedback t run user_id approved comment db
  change (charge today organization_id limit) db =
      (consume_daily_quota t today organization_id limit db).1

  unfoldable pub changes : List Change → Db t → Db t
  unfolding change
  changes [] db = db
  changes (c ∷ cs) db = changes cs (change c db)

  pub add_citations_events :
      (run : Run) (position : ℕ) (citations : List Citation) (db : Db t)
      → (add_citations t ids run position citations db).events ≡ db.events
  unfolding add_citations
  add_citations_events run position [] db = refl
  add_citations_events run position (citation ∷ rest) db =
      add_citations_events run (position + 1) rest (record db {
        citations = t.citations.insert (citation_row ids run position citation) db.citations;
      })

  pub record_feedback_events :
      (run : Run) (user_id : Option ℕ) (approved : Bool) (comment : Option Text) (db : Db t)
      → (record_feedback t run user_id approved comment db).events ≡ db.events
  unfolding record_feedback store_feedback
  record_feedback_events run user_id approved comment db = ground arith

  pub consume_daily_quota_events :
      (today organization_id limit : ℕ) (db : Db t)
      → (consume_daily_quota t today organization_id limit db).1.events ≡ db.events
  unfolding consume_daily_quota ensure_usage_row ensured
  consume_daily_quota_events today organization_id limit db = ground arith

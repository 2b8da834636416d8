-- ===== src/Api/Resume.antt =====
-- api/routes/runs.py: a reader who comes back with the id of the last frame it has.
use multi_agent_ai_analyst.Prelude.{ℕ, ◌≡◌, List, ◌++◌, drop, map, Outcome, ok}
use multi_agent_ai_analyst.Prelude.Text.{Text, codes}
use multi_agent_ai_analyst.RunStore.Rows.{Db}
use multi_agent_ai_analyst.RunStore.{events_of}
use multi_agent_ai_analyst.Api.Stream.{read_of}
use multi_agent_ai_analyst.Api.Site.{HttpError, Site}
use multi_agent_ai_analyst.Api.Cursor.{IsDigits}
use multi_agent_ai_analyst.Api.Runs.{sse}

-- The frame's first line gives this id, which has digits only and so ends with its line.
abbrev pub HasId : (frame id : Text) → Type 0
HasId frame id =
    IsDigits id × ((rest : Text) × (frame ≡ codes "id: " ++ (id ++ (codes "\n" ++ rest))))

module _ (site : Site) (owner : ℕ → ℕ) where
  -- What the route sends to a reader with the id of a frame: the frames of the events of the run that
  -- come after the first `sequence`, as they are at some read.
  abbrev pub Resumes :
      (sequence run_id : ℕ) → (ℕ → Db site.tables) → Outcome HttpError (List Text) → Type 0
  Resumes sequence run_id dbs result =
      (k : ℕ) × (result
        ≡ ok (
            map (sse site)
              (drop sequence (events_of site.tables run_id (dbs (read_of site owner run_id k))))))

-- ===== src/Agents/Graph/Relation.antt =====
-- The step relation of the nodes of the graph.
use multi_agent_ai_analyst.Prelude.{
  ℕ, ◌<◌, ◌≤◌, ◌≡◌, ◌⊎◌, true, false, List, [], ◌∷◌, ◌++◌, some, length,
}
use multi_agent_ai_analyst.Prelude.Text.{Text, strip}
use multi_agent_ai_analyst.Agents.State.{
  RouteName, finish, Exhausted, web_unavailable, data_unavailable, generate, AgentState,
  search_unavailable,
}
use multi_agent_ai_analyst.Agents.Action.{Action}
use multi_agent_ai_analyst.Agents.Action.Ensures.{Returns, Fails}
use multi_agent_ai_analyst.Agents.Supervisor.{has_gathered, member, sql_prompt, answer_prompt}
use multi_agent_ai_analyst.Agents.Specialists.{
  SearchResult, WebSearchResult, Verdict, add_documents, add_web, add_sql, evidence, review_answer,
}
use multi_agent_ai_analyst.Agents.Graph.{
  Budget, Dependencies, Node, supervisor, retrieve, web_search, query, generate_answer, critic,
  stop, allowed_routes, is_some, stopped, sent, charged, judged,
}

module _ {W R : Type 0} (deps : Dependencies W R) where
  abbrev pub allowed : List RouteName
  allowed = allowed_routes deps.web_enabled (is_some deps.execute_sql)

  -- A route that the supervisor may choose in a state.
  pub record IsRoute (s : AgentState) (route : RouteName) : Type 0 where
    pub among : (route ≡ finish) ⊎ (member route allowed ≡ true)
    pub limited : deps.max_steps ≤ length s.steps → route ≡ finish
    pub gathered : route ≡ finish → length s.steps < deps.max_steps → has_gathered s.steps ≡ true

  -- The step relation of the nodes: the state and the budget before and after, and the answers of the
  -- services that the step rests on.
  abbrev pub NodeStep : Node → AgentState → Budget → AgentState × Budget → Type 0
  NodeStep supervisor s b (s', b') =
      ((reason : Exhausted) × (s' ≡ stopped s reason) × (b' ≡ b))
      ⊎ ((route : RouteName) × (s' ≡ sent s route)
          × (b' ≡ charged b route)
          × (b.tool_calls_made < b.max_tool_calls)
          × IsRoute s route)
  NodeStep retrieve s b (s', b') =
      (results : List SearchResult) × (s' ≡ add_documents s results)
      × (b' ≡ b)
      × Returns (deps.search_documents deps.tenant_id s.question 4) results
  NodeStep web_search s b (s', b') =
      ((results : List WebSearchResult) × (s' ≡ add_web s results)
        × (b' ≡ b)
        × Returns (deps.search_web s.question 4) results)
      ⊎ ((s' ≡ record s { steps = s.steps ++ web_unavailable ∷ [] })
          × (b' ≡ b)
          × Fails (deps.search_web s.question 4) search_unavailable)
  NodeStep query s b (s', b') =
      ((text : Text) × (result : R) × (s' ≡ add_sql deps.dump s text result)
        × (b' ≡ b)
        × ((raw : Text) × Returns (deps.generate_text (sql_prompt s.question)) raw
            × (text ≡ strip raw))
        × ((execute : Text → Action W R) × (deps.execute_sql ≡ some execute)
            × Returns (execute text) result))
      ⊎ ((s' ≡ record s { steps = s.steps ++ data_unavailable ∷ [] })
          × (b' ≡ b)
          × (is_some deps.execute_sql ≡ false))
  NodeStep generate_answer s b (s', b') =
      (c : ℕ) × (t : Text) × (s' ≡ record s { answer = c ∷ t; steps = s.steps ++ generate ∷ [] })
      × (b' ≡ b)
      × ((raw : Text) × Returns (deps.generate_text (answer_prompt s.question (evidence s))) raw
          × (strip raw ≡ c ∷ t))
  NodeStep critic s b (s', b') =
      (verdict : Verdict) × (s' ≡ judged deps.max_revisions s verdict)
      × (b' ≡ b)
      × Returns (review_answer deps.loads s deps.generate_text) verdict
  NodeStep stop s b (s', b') = (s' ≡ s) × (b' ≡ b)

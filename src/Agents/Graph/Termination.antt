-- ===== src/Agents/Graph/Termination.antt =====
-- The graph reaches `END` within a number of supersteps that its settings bound.
use multi_agent_ai_analyst.Prelude.{
  ℕ, ◌+◌, ◌-◌, ◌*◌, ◌≤◌, ◌<◌, ◌≡◌, ◌≢◌, refl, inl, inr, List, [], ◌∷◌, ◌++◌, ok, length,
  length-append, arith,
}
use multi_agent_ai_analyst.Agents.State.{
  Step, supervisor_to, supervisor_stop, web_unavailable, data_sql, data_unavailable, generate,
  critic_approved, critic_revise, AgentState,
}
use multi_agent_ai_analyst.Agents.Specialists.{add_documents, add_web, add_sql}
use multi_agent_ai_analyst.Agents.Graph.{
  Budget, Dependencies, Node, supervisor, retrieve, web_search, query, generate_answer, critic,
  stop, invoke, after, sent, stopped, judged, recursion_limit,
}
use multi_agent_ai_analyst.Agents.Graph.Relation.{NodeStep}
use multi_agent_ai_analyst.Agents.Graph.Steps.{invoke-induction}

module _ {W R : Type 0} (deps : Dependencies W R) where
  -- What is left of the steps below the limit, with the step that an agent adds after it.
  room : AgentState → ℕ
  room s = deps.max_steps + 1 - length s.steps

  rounds : AgentState → ℕ
  rounds s = 3 * (deps.max_revisions - s.revisions)

  -- An upper bound of the supersteps to `END`.
  pub measure : Node → AgentState → ℕ
  unfolding room rounds
  measure supervisor s = room s + rounds s + 3
  measure generate_answer s = room s + rounds s + 2
  measure critic s = room s + rounds s + 1
  measure stop s = 0
  measure _ s = (deps.max_steps - length s.steps) + rounds s + 4

  length-snoc : (xs : List Step) (x : Step) → length (xs ++ x ∷ []) ≡ length xs + 1
  length-snoc xs x = omega (arith, length-append xs (x ∷ []))

  -- Every node but `END` lowers the bound.
  NodeStep-measure :
      (n n' : Node) (s s' : AgentState) (b b' : Budget)
      → NodeStep deps n s b (s', b')
      → after n s'.plan ≡ ok n'
      → n ≢ stop
      → measure n' s' < measure n s
  unfolding measure after sent stopped judged add_documents add_web add_sql
  NodeStep-measure supervisor n' s s' b b' (inl (r, e, _)) a _ =
      ground (arith, length-snoc s.steps (supervisor_stop r))
  NodeStep-measure supervisor n' s s' b b' (inr (r, e, _, _, k)) a _ =
      ground (arith, length-snoc s.steps (supervisor_to r))
  NodeStep-measure retrieve n' s s' b b' (x, e, _, _) a _ =
      ground (arith, length-snoc s.steps Step.retriever)
  NodeStep-measure web_search n' s s' b b' st a _ =
      ground (arith, length-snoc s.steps Step.web, length-snoc s.steps web_unavailable)
  NodeStep-measure query n' s s' b b' st a _ =
      ground (arith, length-snoc s.steps data_sql, length-snoc s.steps data_unavailable)
  NodeStep-measure generate_answer n' s s' b b' (x, y, e, _, _) a _ =
      ground (arith, length-snoc s.steps generate)
  NodeStep-measure critic n' s s' b b' (v, e, _, _) a _ =
      ground (arith, length-snoc s.steps critic_approved, length-snoc s.steps critic_revise)
  NodeStep-measure stop n' s s' b b' st a k = absurd (k refl)

  measure-pos : (n : Node) (s : AgentState) → n ≢ stop → 0 < measure n s
  unfolding measure
  measure-pos stop s h = absurd (h refl)
  measure-pos _ s h = omega arith

  -- With as many supersteps left as the bound, a run never ends in the recursion error.
  pub invoke-measure :
      (fuel : ℕ) (n : Node) (s : AgentState) (b : Budget) (w : W)
      → measure n s ≤ fuel
      → (invoke deps fuel n s b w).0 ≢ recursion_limit
  invoke-measure fuel n s b w h =
      invoke-induction deps (λ f n s b. measure n s ≤ f) (λ r. r ≢ recursion_limit)
        (λ f n s b c k below st.
          omega (arith, NodeStep-measure n c.0 s c.1 b c.2 st.node st.edge k))
        (λ f s b below e. cc) (λ x e. cc)
        (λ n s b k below. absurd (omega (arith, measure-pos n s k))) fuel n s b w h

  -- A new run reaches `END`, or raises what a node raised, within
  -- `max_steps + 3 * max_revisions + 4` supersteps, whatever the services answer.
  pub invoke_terminates :
      (fuel : ℕ) (s : AgentState) (b : Budget) (w : W)
      → s.steps ≡ []
      → s.revisions ≡ 0
      → deps.max_steps + 3 * deps.max_revisions + 4 ≤ fuel
      → (invoke deps fuel supervisor s b w).0 ≢ recursion_limit
  unfolding measure
  invoke_terminates fuel s b w e r h =
      invoke-measure fuel supervisor s b w (rw (e, r) (omega arith))

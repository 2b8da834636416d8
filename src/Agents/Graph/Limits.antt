-- ===== src/Agents/Graph/Limits.antt =====
-- The tool calls and the revisions of a run stay within the ceilings of its settings.
use multi_agent_ai_analyst.Prelude.{
  ok, ℕ, ◌+◌, ◌≤◌, ◌≡◌, ◌≢◌, refl, inl, inr, [], arith, count, count-snoc,
}
use multi_agent_ai_analyst.Agents.State.{
  Step, supervisor_to, supervisor_stop, web_unavailable, data_sql, data_unavailable, generate,
  critic_approved, critic_revise, AgentState,
}
use multi_agent_ai_analyst.Agents.Specialists.{add_documents, add_web, add_sql}
use multi_agent_ai_analyst.Agents.Supervisor.{is_evidence_step}
use multi_agent_ai_analyst.Agents.Graph.{
  Budget, Dependencies, Node, supervisor, retrieve, web_search, query, generate_answer, critic,
  stop, Finish, finished, invoke, after, sent, stopped, charged, judged,
}
use multi_agent_ai_analyst.Agents.Graph.Relation.{NodeStep}
use multi_agent_ai_analyst.Agents.Graph.Steps.{invoke-induction}

module _ {W R : Type 0} (deps : Dependencies W R) where
  -- The evidence agent that is due at a node.
  due : Node → ℕ
  due retrieve = 1
  due web_search = 1
  due query = 1
  due _ = 0

  -- The last review may count one revision more than are made.
  last : Node → ℕ
  last stop = 1
  last _ = 0

  gathered : AgentState → ℕ
  gathered s = count is_evidence_step s.steps

  record WithinLimits (n : Node) (s : AgentState) (b : Budget) : Type 0 where
    ceiling : b.max_tool_calls ≡ deps.max_tool_calls
    charged_first : gathered s + due n ≤ b.tool_calls_made
    calls : b.tool_calls_made ≤ b.max_tool_calls
    revisions : s.revisions ≤ deps.max_revisions + last n

  NodeStep-WithinLimits :
      (n n' : Node) (s s' : AgentState) (b b' : Budget)
      → NodeStep deps n s b (s', b')
      → after n s'.plan ≡ ok n'
      → n ≢ stop
      → WithinLimits n s b
      → WithinLimits n' s' b'
  unfolding after sent stopped judged charged add_documents add_web add_sql due last gathered
  NodeStep-WithinLimits supervisor n' s s' b b' (inl (r, e, f)) a _ h =
      ground (arith, count-snoc is_evidence_step s.steps (supervisor_stop r))
  NodeStep-WithinLimits supervisor n' s s' b b' (inr (r, e, f, g, k)) a _ h =
      ground (arith, count-snoc is_evidence_step s.steps (supervisor_to r))
  NodeStep-WithinLimits retrieve n' s s' b b' (x, e, f, _) a _ h =
      ground (arith, count-snoc is_evidence_step s.steps Step.retriever)
  NodeStep-WithinLimits web_search n' s s' b b' st a _ h = ground (
    arith,
    count-snoc is_evidence_step s.steps Step.web,
    count-snoc is_evidence_step s.steps web_unavailable,
  )
  NodeStep-WithinLimits query n' s s' b b' st a _ h = ground (
    arith,
    count-snoc is_evidence_step s.steps data_sql,
    count-snoc is_evidence_step s.steps data_unavailable,
  )
  NodeStep-WithinLimits generate_answer n' s s' b b' (x, y, e, f, _) a _ h =
      ground (arith, count-snoc is_evidence_step s.steps generate)
  NodeStep-WithinLimits critic n' s s' b b' (v, e, f, _) a _ h = ground (
    arith,
    count-snoc is_evidence_step s.steps critic_approved,
    count-snoc is_evidence_step s.steps critic_revise,
  )
  NodeStep-WithinLimits stop n' s s' b b' st a k h = absurd (k refl)

  -- What holds of the state that a run returns.
  abbrev pub KeepsLimits : Finish → Type 0
  KeepsLimits (finished s) =
      (count is_evidence_step s.steps ≤ deps.max_tool_calls)
      × (s.revisions ≤ deps.max_revisions + 1)
  KeepsLimits _ = Unit

  pub invoke-KeepsLimits :
      (fuel : ℕ) (s : AgentState) (b : Budget) (w : W)
      → s.steps ≡ []
      → s.revisions ≡ 0
      → b.max_tool_calls ≡ deps.max_tool_calls
      → b.tool_calls_made ≡ 0
      → KeepsLimits (invoke deps fuel supervisor s b w).0
  unfolding gathered due last count
  invoke-KeepsLimits fuel s b w e r c z =
      invoke-induction deps (λ f n s b. WithinLimits n s b) KeepsLimits
        (λ f n s b c k h st. NodeStep-WithinLimits n c.0 s c.1 b c.2 st.node st.edge k h)
        (λ f s b h. (omega (arith, h.ceiling), h.revisions)) (λ x. tt) (λ n s b k h. tt) fuel
        supervisor s b w (ground arith)

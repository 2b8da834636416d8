-- ===== src/Agents/Graph/Grounding.antt =====
-- Where a returned answer comes from: gathered evidence, or a budget that ran out first.
use multi_agent_ai_analyst.Prelude.{
  ℕ, ◌<◌, ◌≡◌, ◌≢◌, ◌⊎◌, refl, inl, inr, Bool, true, false, ◌||◌, List, [], ◌∷◌, ◌++◌, ok, arith,
  any, any-snoc,
}
use multi_agent_ai_analyst.Agents.State.{
  Step, supervisor_to, supervisor_stop, web_unavailable, data_sql, data_unavailable, generate,
  critic_approved, critic_revise, AgentState, RouteName, finish,
}
use multi_agent_ai_analyst.Agents.Specialists.{add_documents, add_web, add_sql}
use multi_agent_ai_analyst.Agents.Supervisor.{is_evidence_step, has_gathered}
use multi_agent_ai_analyst.Agents.Graph.{
  Budget, Dependencies, Node, supervisor, retrieve, web_search, query, generate_answer, critic,
  stop, Finish, finished, invoke, after, sent, stopped, judged,
}
use multi_agent_ai_analyst.Agents.Graph.Relation.{NodeStep, IsRoute}
use multi_agent_ai_analyst.Agents.Graph.Steps.{invoke-induction}

-- Whether a step records that the budget ran out.
abbrev pub is_stop_step : Step → Bool
is_stop_step (supervisor_stop reason) = true
is_stop_step _ = false

-- Whether the last step is the approval of the review.
abbrev pub ends_approved : List Step → Bool
ends_approved [] = false
ends_approved (critic_approved ∷ []) = true
ends_approved (step ∷ []) = false
ends_approved (step ∷ next ∷ steps) = ends_approved (next ∷ steps)

ends_approved-snoc : (xs : List Step) → ends_approved (xs ++ critic_approved ∷ []) ≡ true
ends_approved-snoc [] = refl
ends_approved-snoc (x ∷ []) = ground arith
ends_approved-snoc (x ∷ y ∷ xs) = ground (arith, ends_approved-snoc (y ∷ xs))

module _ {W R : Type 0} (deps : Dependencies W R) where
  -- Evidence was gathered, or the budget ran out.
  sourced : AgentState → Bool
  sourced s = has_gathered s.steps || any is_stop_step s.steps

  -- What a state owes at each node.
  abbrev Owes : Node → AgentState → Type 0
  Owes supervisor s = (s.steps ≡ []) ⊎ (sourced s ≡ true)
  Owes generate_answer s = sourced s ≡ true
  Owes critic s = (sourced s ≡ true) × (s.answer ≢ [])
  Owes stop s =
      (sourced s ≡ true)
      × (s.answer ≢ [])
      × ((ends_approved s.steps ≡ true) ⊎ (deps.max_revisions < s.revisions))
  Owes _ s = Unit

  has_gathered-snoc :
      (xs : List Step) (x : Step)
      → has_gathered (xs ++ x ∷ []) ≡ has_gathered xs || is_evidence_step x
  unfolding has_gathered
  has_gathered-snoc xs x = any-snoc is_evidence_step xs x

  sourced-snoc :
      (s s' : AgentState) (x : Step)
      → s'.steps ≡ s.steps ++ x ∷ []
      → sourced s' ≡ sourced s || (is_evidence_step x || is_stop_step x)
  unfolding sourced
  sourced-snoc s s' x e =
      ground (arith, has_gathered-snoc s.steps x, any-snoc is_stop_step s.steps x)

  route_sourced :
      0 < deps.max_steps
      → (s : AgentState) (r : RouteName) → IsRoute deps s r
      → Owes supervisor s
      → r ≡ finish
      → sourced s ≡ true
  unfolding sourced
  route_sourced positive s r k (inr h) e = h
  route_sourced positive s r k (inl h) e =
      let g : has_gathered s.steps ≡ true = k.gathered e (rw h (omega arith)) in rw g

  module _ (positive : 0 < deps.max_steps) where
    NodeStep-Owes :
        (n n' : Node) (s s' : AgentState) (b b' : Budget)
        → NodeStep deps n s b (s', b')
        → after n s'.plan ≡ ok n'
        → n ≢ stop
        → Owes n s
        → Owes n' s'
    unfolding after sent stopped judged add_documents add_web add_sql
    NodeStep-Owes supervisor n' s s' b b' (inl (r, e, f)) a _ h =
        ground (arith, sourced-snoc s s' (supervisor_stop r))
    NodeStep-Owes supervisor n' s s' b b' (inr (r, e, f, g, k)) a _ h =
        ground (arith, route_sourced positive s r k h, sourced-snoc s s' (supervisor_to r))
    NodeStep-Owes retrieve n' s s' b b' (x, e, f, _) a _ h =
        ground (arith, sourced-snoc s s' Step.retriever)
    NodeStep-Owes web_search n' s s' b b' st a _ h =
        ground (arith, sourced-snoc s s' Step.web, sourced-snoc s s' web_unavailable)
    NodeStep-Owes query n' s s' b b' st a _ h =
        ground (arith, sourced-snoc s s' data_sql, sourced-snoc s s' data_unavailable)
    NodeStep-Owes generate_answer n' s s' b b' (x, y, e, f, _) a _ h =
        ground (arith, sourced-snoc s s' generate)
    NodeStep-Owes critic n' s s' b b' (v, e, f, _) a _ h = ground (
      arith,
      sourced-snoc s s' critic_approved,
      sourced-snoc s s' critic_revise,
      ends_approved-snoc s.steps,
    )
    NodeStep-Owes stop n' s s' b b' st a k h = absurd (k refl)

  sourced_cases :
      (s : AgentState)
      → sourced s ≡ true
      → (has_gathered s.steps ≡ true) ⊎ (any is_stop_step s.steps ≡ true)
  unfolding sourced
  sourced_cases s h = ground arith

  -- What holds of the state that a run returns: evidence was gathered or the budget ran out, there
  -- is an answer, and its review approved it or no revision was left.
  abbrev pub IsGrounded : Finish → Type 0
  IsGrounded (finished s) =
      ((has_gathered s.steps ≡ true) ⊎ (any is_stop_step s.steps ≡ true))
      × (s.answer ≢ [])
      × ((ends_approved s.steps ≡ true) ⊎ (deps.max_revisions < s.revisions))
  IsGrounded _ = Unit

  pub invoke-IsGrounded :
      0 < deps.max_steps
      → (fuel : ℕ) (s : AgentState) (b : Budget) (w : W) → s.steps ≡ []
      → IsGrounded (invoke deps fuel supervisor s b w).0
  invoke-IsGrounded positive fuel s b w e =
      invoke-induction deps (λ f n s b. Owes n s) IsGrounded
        (λ f n s b c k h st. NodeStep-Owes positive n c.0 s c.1 b c.2 st.node st.edge k h)
        (λ f s b h. (sourced_cases s h.0, h.1, h.2)) (λ x. tt) (λ n s b k h. tt) fuel supervisor s b
        w (inl e)

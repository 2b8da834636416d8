-- ===== src/Agents/Graph/Steps.antt =====
-- Supersteps, and induction over a run.
use multi_agent_ai_analyst.Prelude.{ℕ, zero, suc, ◌≡◌, refl, ◌≢◌, Outcome, ok, raise, arith}
use multi_agent_ai_analyst.Agents.State.{AgentState, Error}
use multi_agent_ai_analyst.Agents.Action.Ensures.{Ensures, Ensures-bind, Ensures-pure, Ensures-lift}
use multi_agent_ai_analyst.Agents.Graph.{
  Budget, Dependencies, Node, stop, Finish, finished, failed, recursion_limit, superstep, invoke,
  after,
}
use multi_agent_ai_analyst.Agents.Graph.Relation.{NodeStep}
use multi_agent_ai_analyst.Agents.Graph.Nodes.{run_node-NodeStep}

module _ {W R : Type 0} (deps : Dependencies W R) where
  abbrev pub Config : Type 0
  Config = Node × AgentState × Budget

  -- A step of the graph: the node's step, and the edge that the new plan names.
  pub record GraphStep (n : Node) (s : AgentState) (b : Budget) (c : Config) : Type 0 where
    pub node : NodeStep deps n s b (c.1, c.2)
    pub edge : after n c.1.plan ≡ ok c.0

  pub superstep-GraphStep :
      (n : Node) (s : AgentState) (b : Budget) → Ensures (GraphStep n s b) (superstep deps n s b)
  unfolding superstep
  superstep-GraphStep n s b =
      Ensures-bind (NodeStep deps n s b) _ _ (run_node-NodeStep deps n s b) (λ x k.
        Ensures-bind (λ n'. after n x.0.plan ≡ ok n') _ _ (Ensures-lift _ (λ n' e. e))
          (λ n' e. Ensures-pure _ (record { node = k; edge = e })))

  continue : ℕ → Outcome Error Config → W → Finish × W
  continue fuel (raise e) w = (failed e, w)
  continue fuel (ok c) w = invoke deps fuel c.0 c.1 c.2 w

  -- One step of a run that has not ended.
  invoke-suc :
      (fuel : ℕ) (n : Node) (s : AgentState) (b : Budget) (w : W)
      → n ≢ stop
      → invoke deps (suc fuel) n s b w
        ≡ (let (r, w') = superstep deps n s b w in continue fuel r w')
  unfolding invoke continue
  invoke-suc fuel stop s b w k = absurd (k refl)
  invoke-suc fuel _ s b w k = ground arith

  -- A statement `P` on what is left of a run, kept by every step, gives a statement `Q` on its end.
  module _ (P : ℕ → Node → AgentState → Budget → Type 0) (Q : Finish → Type 0)
      (keep : (fuel : ℕ) (n : Node) (s : AgentState) (b : Budget) (c : Config)
        → n ≢ stop
        → P (suc fuel) n s b
        → GraphStep n s b c
        → P fuel c.0 c.1 c.2)
      (at_end : (fuel : ℕ) (s : AgentState) (b : Budget) → P fuel stop s b → Q (finished s))
      (at_failure : (e : Error) → Q (failed e))
      (at_limit : (n : Node) (s : AgentState) (b : Budget)
        → n ≢ stop
        → P zero n s b
        → Q recursion_limit) where
    continue-Q :
        (fuel : ℕ)
        → ((n : Node) (s : AgentState) (b : Budget) (w : W)
            → P fuel n s b
            → Q (invoke deps fuel n s b w).0)
        → (r : Outcome Error Config) (w : W) → ((c : Config) → r ≡ ok c → P fuel c.0 c.1 c.2)
        → Q (continue fuel r w).0
    unfolding continue
    continue-Q fuel ih (ok c) w h = ih c.0 c.1 c.2 w (h c refl)
    continue-Q fuel ih (raise e) w h = at_failure e

    step-Q :
        (fuel : ℕ)
        → ((n : Node) (s : AgentState) (b : Budget) (w : W)
            → P fuel n s b
            → Q (invoke deps fuel n s b w).0)
        → (n : Node) (s : AgentState) (b : Budget) (w : W) → n ≢ stop
        → P (suc fuel) n s b
        → Q (invoke deps (suc fuel) n s b w).0
    step-Q fuel ih n s b w k h = rw (invoke-suc fuel n s b w k) (
        continue-Q fuel ih (superstep deps n s b w).0 (superstep deps n s b w).1
          (λ c e. keep fuel n s b c k h ((superstep-GraphStep n s b).at w c e)))

    limit-Q :
        (n : Node) (s : AgentState) (b : Budget) (w : W)
        → P zero n s b
        → Q (invoke deps zero n s b w).0
    unfolding invoke
    limit-Q stop s b w h = at_end zero s b h
    limit-Q n s b w h = at_limit n s b (λ e. cc) h

    end-Q :
        (fuel : ℕ) (s : AgentState) (b : Budget) (w : W)
        → P fuel stop s b
        → Q (invoke deps fuel stop s b w).0
    unfolding invoke
    end-Q zero s b w h = at_end zero s b h
    end-Q fuel s b w h = at_end fuel s b h

    pub invoke-induction :
        (fuel : ℕ) (n : Node) (s : AgentState) (b : Budget) (w : W)
        → P fuel n s b
        → Q (invoke deps fuel n s b w).0
    invoke-induction zero n s b w h = limit-Q n s b w h
    invoke-induction (suc fuel) stop s b w h = end-Q (suc fuel) s b w h
    invoke-induction (suc fuel) n s b w h = step-Q fuel (invoke-induction fuel) n s b w (λ e. cc) h

-- ===== src/Agents/Graph/Nodes.antt =====
-- What each node of the graph makes of the state, for what the services answer.
use multi_agent_ai_analyst.Prelude.{
  ℕ, ◌<◌, ◌≡◌, refl, inl, inr, Bool, true, false, [], ◌∷◌, Option, none, some, ok, arith, any,
}
use multi_agent_ai_analyst.Prelude.Text.{Text, strip}
use multi_agent_ai_analyst.Agents.State.{
  RouteName, retriever, finish, Exhausted, AgentState, value_error, search_unavailable, Error,
}
use multi_agent_ai_analyst.Agents.Action.{Action, pure, lift, ◌>>◌}
use multi_agent_ai_analyst.Agents.Action.Ensures.{
  Ensures, Ensures-bind, Ensures-then, Ensures-pure, Ensures-throw, Ensures-lift,
  Ensures-attempt-Returns, Ensures-call, Returns, Fails,
}
use multi_agent_ai_analyst.Agents.Supervisor.{member, choose_route, answer_prompt}
use multi_agent_ai_analyst.Agents.Supervisor.Routing.{
  choose_route-allowed, choose_route-finish, choose_route-limit,
}
use multi_agent_ai_analyst.Agents.Specialists.{
  evidence, web_failed, retriever_agent, web_agent, data_agent, required,
}
use multi_agent_ai_analyst.Agents.Graph.{
  Budget, Dependencies, Event, retrieving, retrieving_web, querying, generating, Node, supervisor,
  retrieve, web_search, query, generate_answer, critic, stop, exhausted_reason, allowed_routes,
  is_some, answered, run_node, supervise, choose, publish, query_with, keeping,
}
use multi_agent_ai_analyst.Agents.Graph.Relation.{NodeStep, IsRoute, allowed}

retriever_allowed : (v q : Bool) → member retriever (allowed_routes v q) ≡ true
unfolding allowed_routes member any
retriever_allowed v q = ground arith

finish_not_allowed : (v q : Bool) → member finish (allowed_routes v q) ≡ false
unfolding allowed_routes member any
finish_not_allowed v q = ground arith

module _ {W R : Type 0} (deps : Dependencies W R) where
  keeping-Ensures :
      (P : AgentState × Budget → Type 0) (b : Budget) (m : Action W AgentState)
      → Ensures (λ s. P (s, b)) m
      → Ensures P (keeping deps b m)
  unfolding keeping
  keeping-Ensures P b m h =
      Ensures-bind (λ s. P (s, b)) m (λ s. pure (s, b)) h (λ s k. Ensures-pure (s, b) k)

  required-Ensures :
      (P : AgentState → Type 0) (t : Text) (m : Action W AgentState)
      → Ensures P m
      → Ensures P (required t m)
  unfolding required
  required-Ensures P [] m h = Ensures-throw value_error
  required-Ensures P (c ∷ t) m h = h

  publish-Ensures :
      {A : Type 0} (P : A → Type 0) (e : Event) (m : Action W A)
      → Ensures P m
      → Ensures P (publish deps e >> m)
  publish-Ensures P e m h = Ensures-then (publish deps e) (λ _. m) (λ _. h)

  module _ (s : AgentState) (b : Budget) where
    retriever_agent-Ensures :
        Ensures
          (λ s'. NodeStep deps retrieve s b (s', b))
          (retriever_agent s deps.tenant_id deps.search_documents)
    unfolding retriever_agent
    retriever_agent-Ensures =
        required-Ensures _ (strip deps.tenant_id) _
          (Ensures-call _ _ (λ results called. Ensures-pure _ (results, refl, refl, called)))

    run-retrieve : Ensures (NodeStep deps retrieve s b) (run_node deps retrieve s b)
    unfolding run_node
    run-retrieve =
        keeping-Ensures (NodeStep deps retrieve s b) b _
          (publish-Ensures _ retrieving _ retriever_agent-Ensures)

    web_failed-Ensures :
        (e : Error)
        → Fails (deps.search_web s.question 4) e
        → Ensures (λ s'. NodeStep deps web_search s b (s', b)) (lift {W = W} (web_failed s e))
    unfolding web_failed
    web_failed-Ensures search_unavailable called =
        Ensures-lift _ (λ s' h. inr (ground arith, refl, called))
    web_failed-Ensures _ called = Ensures-lift _ (λ s' h. cc)

    web_agent-Ensures :
        Ensures (λ s'. NodeStep deps web_search s b (s', b)) (web_agent s deps.search_web)
    unfolding web_agent
    web_agent-Ensures =
        Ensures-attempt-Returns _ _ _
          (λ results called. Ensures-pure _ (inl (results, refl, refl, called))) web_failed-Ensures

    run-web_search : Ensures (NodeStep deps web_search s b) (run_node deps web_search s b)
    unfolding run_node
    run-web_search =
        keeping-Ensures (NodeStep deps web_search s b) b _
          (publish-Ensures _ retrieving_web _ web_agent-Ensures)

    data_agent-Ensures :
        (execute : Text → Action W R)
        → deps.execute_sql ≡ some execute
        → Ensures
            (λ s'. NodeStep deps query s b (s', b))
            (data_agent deps.dump s deps.generate_text execute)
    unfolding data_agent
    data_agent-Ensures execute enabled = Ensures-call _ _ (λ raw asked.
        Ensures-call _ _ (λ result ran.
          Ensures-pure _
            (inl (strip raw, result, refl, refl, (raw, asked, refl), (execute, enabled, ran)))))

    query_with-Ensures :
        (execute : Option (Text → Action W R))
        → deps.execute_sql ≡ execute
        → Ensures (λ s'. NodeStep deps query s b (s', b)) (query_with deps execute s)
    unfolding query_with
    query_with-Ensures none h = Ensures-pure _ (inr (refl, refl, rw h refl))
    query_with-Ensures (some execute) h =
        publish-Ensures _ querying _ (data_agent-Ensures execute h)

    run-query : Ensures (NodeStep deps query s b) (run_node deps query s b)
    unfolding run_node
    run-query =
        keeping-Ensures (NodeStep deps query s b) b _ (query_with-Ensures deps.execute_sql refl)

    answered-Ensures :
        (raw text : Text)
        → Returns (deps.generate_text (answer_prompt s.question (evidence s))) raw
        → strip raw ≡ text
        → Ensures (λ s'. NodeStep deps generate_answer s b (s', b)) (lift {W = W} (answered s text))
    unfolding answered
    answered-Ensures raw [] asked e = Ensures-lift _ (λ s' h. cc)
    answered-Ensures raw (c ∷ t) asked e =
        Ensures-lift _ (λ s' h. (c, t, ground arith, refl, (raw, asked, e)))

    run-generate_answer :
        Ensures (NodeStep deps generate_answer s b) (run_node deps generate_answer s b)
    unfolding run_node
    run-generate_answer = keeping-Ensures (NodeStep deps generate_answer s b) b _ (
        publish-Ensures _ generating _
          (Ensures-call _ _ (λ raw asked. answered-Ensures raw (strip raw) asked refl)))

    run-critic : Ensures (NodeStep deps critic s b) (run_node deps critic s b)
    unfolding run_node
    run-critic =
        keeping-Ensures (NodeStep deps critic s b) b _
          (Ensures-call _ _ (λ verdict called. Ensures-pure _ (verdict, refl, refl, called)))

    choose_route-IsRoute :
        (w : W) (route : RouteName)
        → (choose_route deps.lower deps.loads deps.generate_text s
            (allowed deps)
            deps.max_steps
            w).0
          ≡ ok route
        → IsRoute deps s route
    choose_route-IsRoute w route h = record {
      among =
          choose_route-allowed deps.lower deps.loads deps.generate_text s (allowed deps)
            deps.max_steps w h;
      limited = λ k. ground (
        arith,
        choose_route-limit deps.lower deps.loads deps.generate_text s (allowed deps) deps.max_steps
            w k,
      );
      gathered = λ e below.
          choose_route-finish deps.lower deps.loads deps.generate_text s (allowed deps)
            deps.max_steps w (retriever_allowed deps.web_enabled (is_some deps.execute_sql))
            (finish_not_allowed deps.web_enabled (is_some deps.execute_sql)) below (rw e at h);
    }

    choose-Ensures :
        b.tool_calls_made < b.max_tool_calls
        → Ensures (NodeStep deps supervisor s b) (choose deps s b)
    unfolding choose
    choose-Ensures below =
        Ensures-bind (IsRoute deps s) _ _ (record { at = choose_route-IsRoute })
          (λ route k. Ensures-then _ _ (λ _. Ensures-pure _ (inr (route, refl, refl, below, k))))

    supervise-Ensures :
        (reason : Option Exhausted)
        → (reason ≡ none → b.tool_calls_made < b.max_tool_calls)
        → Ensures (NodeStep deps supervisor s b) (supervise deps reason s b)
    unfolding supervise
    supervise-Ensures none h = choose-Ensures (h refl)
    supervise-Ensures (some reason) h =
        Ensures-then _ _ (λ _. Ensures-pure _ (inl (reason, refl, refl)))

    within_budget : (now : ℕ) → exhausted_reason b now ≡ none → b.tool_calls_made < b.max_tool_calls
    unfolding exhausted_reason
    within_budget now h = ground arith

    run-supervisor : Ensures (NodeStep deps supervisor s b) (run_node deps supervisor s b)
    unfolding run_node
    run-supervisor =
        Ensures-then _ _ (λ now. supervise-Ensures (exhausted_reason b now) (within_budget now))

  -- Every node that returns takes a step of the relation.
  pub run_node-NodeStep :
      (n : Node) (s : AgentState) (b : Budget) → Ensures (NodeStep deps n s b) (run_node deps n s b)
  run_node-NodeStep supervisor s b = run-supervisor s b
  run_node-NodeStep retrieve s b = run-retrieve s b
  run_node-NodeStep web_search s b = run-web_search s b
  run_node-NodeStep query s b = run-query s b
  run_node-NodeStep generate_answer s b = run-generate_answer s b
  run_node-NodeStep critic s b = run-critic s b
  run_node-NodeStep stop s b = unfold run_node in Ensures-pure _ (refl, refl)

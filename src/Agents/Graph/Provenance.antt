-- ===== src/Agents/Graph/Provenance.antt =====
-- Where the evidence of a run comes from: every step, text and citation goes back to a service's answer.
use mathlib.Core.Path.{subst}
use multi_agent_ai_analyst.Prelude.{
  Bool, true, false, if◌then◌else◌, Bool, false, ℕ, ◌≡◌, ◌⊎◌, refl, inl, inr, List, [], ◌∷◌, ◌++◌,
  map, some, All, All-mono, All-append,
}
use multi_agent_ai_analyst.Prelude.Text.{Text, strip}
use multi_agent_ai_analyst.Agents.State.{
  Plan, Citation, Step, supervisor_to, supervisor_stop, web_unavailable, data_sql, data_unavailable,
  generate, critic_approved, critic_revise, search_unavailable, AgentState,
}
use multi_agent_ai_analyst.Agents.Action.{Action}
use multi_agent_ai_analyst.Agents.Action.Ensures.{Returns, Fails}
use multi_agent_ai_analyst.Agents.Supervisor.{sql_prompt}
use multi_agent_ai_analyst.Agents.Specialists.{
  SearchResult, WebSearchResult, document_text, document_citation, web_text, web_citations,
  sql_citation, add_documents, add_web, add_sql,
}
use multi_agent_ai_analyst.Agents.Graph.{
  Budget, Dependencies, Node, supervisor, retrieve, web_search, query, generate_answer, critic,
  stop, Finish, finished, invoke, sent, stopped, judged, is_some,
}
use multi_agent_ai_analyst.Agents.Graph.Relation.{NodeStep}
use multi_agent_ai_analyst.Agents.Graph.Steps.{invoke-induction}

-- One of the items of a list
abbrev pub Among : {A : Type 0} → A → List A → Type 0
Among x [] = ⊥
Among x (y ∷ ys) = (x ≡ y) ⊎ Among x ys

All-Among : {A : Type 0} (xs : List A) → All (λ x. Among x xs) xs
All-Among [] = tt
All-Among (x ∷ xs) = (inl refl, All-mono _ _ xs (λ y h. inr h) (All-Among xs))

All-snoc {ℓ κ} :
    {A : Type ℓ} (P : A → Type κ) (xs : List A) (x : A) → All P xs → P x → All P (xs ++ x ∷ [])
All-snoc P xs x h k = All-append P xs (x ∷ []) h (k, tt)

module _ {W R : Type 0} (deps : Dependencies W R) (question : Text) where
  abbrev pub Found : List SearchResult → Type 0
  Found = Returns (deps.search_documents deps.tenant_id question 4)

  abbrev pub FoundOnWeb : List WebSearchResult → Type 0
  FoundOnWeb = Returns (deps.search_web question 4)

  -- The model's reply to the question is a query that returns the result.
  abbrev pub Queried : Text → R → Type 0
  Queried text result =
      ((raw : Text) × Returns (deps.generate_text (sql_prompt question)) raw × (text ≡ strip raw))
      × ((execute : Text → Action W R) × (deps.execute_sql ≡ some execute)
          × Returns (execute text) result)

  abbrev pub StepBacked : Step → Type 0
  StepBacked Step.retriever = (results : List SearchResult) × Found results
  StepBacked Step.web = (results : List WebSearchResult) × FoundOnWeb results
  StepBacked web_unavailable = Fails (deps.search_web question 4) search_unavailable
  StepBacked data_sql = (text : Text) × (result : R) × Queried text result
  StepBacked data_unavailable = is_some deps.execute_sql ≡ false
  StepBacked _ = Unit

  abbrev pub TextBacked : Text → Type 0
  TextBacked t =
      ((results : List SearchResult) × Found results × Among t (map document_text results))
      ⊎ ((results : List WebSearchResult) × FoundOnWeb results × Among t (map web_text results))

  abbrev pub CitationBacked : Citation → Type 0
  CitationBacked c =
      ((results : List SearchResult) × Found results × Among c (map document_citation results))
      ⊎ (((results : List WebSearchResult) × FoundOnWeb results × Among c (web_citations 1 results))
          ⊎ ((text : Text) × (result : R) × Queried text result
              × (c ≡ sql_citation (deps.dump result))))

  pub record Backed (s : AgentState) : Type 0 where
    pub asks : s.question ≡ question
    pub steps : All StepBacked s.steps
    pub documents : All TextBacked s.documents
    pub citations : All CitationBacked s.citations

  noted :
      (s : AgentState) (step : Step)
      → Backed s
      → StepBacked step
      → All StepBacked (s.steps ++ step ∷ [])
  noted s step h k = All-snoc StepBacked s.steps step h.steps k

  -- A state with one step more, and the same evidence.
  noted-Backed :
      {plan : Plan} {answer : Text} {revisions : ℕ} (s : AgentState) (step : Step)
      → Backed s
      → StepBacked step
      → Backed (record s {
        plan = plan;
        answer = answer;
        revisions = revisions;
        steps = s.steps ++ step ∷ [];
      })
  noted-Backed s step h k = record {
    asks = h.asks;
    steps = noted s step h k;
    documents = h.documents;
    citations = h.citations;
  }

  add_documents-Backed :
      (s : AgentState) (results : List SearchResult)
      → Backed s
      → Found results
      → Backed (add_documents s results)
  unfolding add_documents
  add_documents-Backed s results h found = record {
    asks = h.asks;
    steps = noted s Step.retriever h (results, found);
    documents = All-append TextBacked s.documents (map document_text results) h.documents (
        All-mono _ _ (map document_text results) (λ t among. inl (results, found, among))
          (All-Among (map document_text results)));
    citations = All-append CitationBacked s.citations (map document_citation results) h.citations (
        All-mono _ _ (map document_citation results) (λ c among. inl (results, found, among))
          (All-Among (map document_citation results)));
  }

  add_web-Backed :
      (s : AgentState) (results : List WebSearchResult)
      → Backed s
      → FoundOnWeb results
      → Backed (add_web s results)
  unfolding add_web
  add_web-Backed s results h found = record {
    asks = h.asks;
    steps = noted s Step.web h (results, found);
    documents = All-append TextBacked s.documents (map web_text results) h.documents (
        All-mono _ _ (map web_text results) (λ t among. inr (results, found, among))
          (All-Among (map web_text results)));
    citations = All-append CitationBacked s.citations (web_citations 1 results) h.citations (
        All-mono _ _ (web_citations 1 results) (λ c among. inr (inl (results, found, among)))
          (All-Among (web_citations 1 results)));
  }

  add_sql-Backed :
      (s : AgentState) (text : Text) (result : R)
      → Backed s
      → Queried text result
      → Backed (add_sql deps.dump s text result)
  unfolding add_sql
  add_sql-Backed s text result h queried = record {
    asks = h.asks;
    steps = noted s data_sql h (text, result, queried);
    documents = h.documents;
    citations =
        All-snoc CitationBacked s.citations (sql_citation (deps.dump result)) h.citations
          (inr (inr (text, result, queried, refl)));
  }

  critic-Backed : (passed : Bool) → StepBacked (if passed then critic_approved else critic_revise)
  critic-Backed true = tt
  critic-Backed false = tt

  NodeStep-Backed :
      (n : Node) (s s' : AgentState) (b b' : Budget)
      → NodeStep deps n s b (s', b')
      → Backed s
      → Backed s'
  unfolding stopped sent judged
  NodeStep-Backed supervisor s s' b b' (inl (reason, e, _)) h =
      rw e (noted-Backed s (supervisor_stop reason) h tt)
  NodeStep-Backed supervisor s s' b b' (inr (route, e, _, _, _)) h =
      rw e (noted-Backed s (supervisor_to route) h tt)
  NodeStep-Backed retrieve s s' b b' (results, e, _, found) h = rw e (
      add_documents-Backed s results h
        (subst (λ q. Returns (deps.search_documents deps.tenant_id q 4) results) h.asks found))
  NodeStep-Backed web_search s s' b b' (inl (results, e, _, found)) h =
      rw e (
        add_web-Backed s results h
          (subst (λ q. Returns (deps.search_web q 4) results) h.asks found))
  NodeStep-Backed web_search s s' b b' (inr (e, _, failed)) h = rw e (
      noted-Backed s web_unavailable h
        (subst (λ q. Fails (deps.search_web q 4) search_unavailable) h.asks failed))
  NodeStep-Backed query s s' b b' (inl (text, result, e, _, (raw, asked, same), ran)) h = rw e (
      add_sql-Backed s text result h (
        (raw, subst (λ q. Returns (deps.generate_text (sql_prompt q)) raw) h.asks asked, same),
        ran,
      ))
  NodeStep-Backed query s s' b b' (inr (e, _, disabled)) h =
      rw e (noted-Backed s data_unavailable h disabled)
  NodeStep-Backed generate_answer s s' b b' (c, t, e, _, _) h = rw e (noted-Backed s generate h tt)
  NodeStep-Backed critic s s' b b' (verdict, e, _, _) h =
      rw e (noted-Backed s _ h (critic-Backed verdict.passed))
  NodeStep-Backed stop s s' b b' (e, _) h = rw e h

  -- What holds of the state that a run returns.
  abbrev pub IsBacked : Finish → Type 0
  IsBacked (finished s) = Backed s
  IsBacked _ = Unit

  pub invoke-IsBacked :
      (fuel : ℕ) (s : AgentState) (b : Budget) (w : W)
      → s.question ≡ question
      → s.steps ≡ []
      → s.documents ≡ []
      → s.citations ≡ []
      → IsBacked (invoke deps fuel supervisor s b w).0
  invoke-IsBacked fuel s b w asks steps documents citations =
      invoke-induction deps (λ f n s b. Backed s) IsBacked
        (λ f n s b c k h st. NodeStep-Backed n s c.1 b c.2 st.node h) (λ f s b h. h) (λ x. tt)
        (λ n s b k h. tt) fuel supervisor s b w
        (record {
          asks = asks;
          steps = rw steps tt;
          documents = rw documents tt;
          citations = rw citations tt;
        })

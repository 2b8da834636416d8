-- ===== src/Agents/Supervisor.antt =====
-- agents/supervisor.py: which node the graph visits next.
pub mod Routing
use multi_agent_ai_analyst.Prelude.{
  ℕ, Bool, true, false, not, ◌&&◌, List, [], ◌∷◌, ◌++◌, Option, none, some, Outcome, ok, raise, any,
  filter, length, leb, if◌then◌else◌,
}
use multi_agent_ai_analyst.Prelude.Text.{Text, codes, contains, text_eq}
use multi_agent_ai_analyst.Json.{Json, str, object, get_field, json_object}
use multi_agent_ai_analyst.Agents.State.{
  RouteName, retriever, web, analytics, finish, Step, web_unavailable, data_sql, data_unavailable,
  AgentState, Error, provider_error, other_error,
}
use multi_agent_ai_analyst.Agents.Action.{Action}

-- What the prompts of a run interpolate into their fixed wording.
pub data Prompt : Type 0 where
  route_prompt :
      (allowed : List RouteName) (question : Text) (steps : List Step) (memory : List Text) → Prompt
  answer_prompt : (question evidence : Text) → Prompt
  review_prompt : (question answer evidence : Text) → Prompt
  sql_prompt : (question : Text) → Prompt

-- `step in _EVIDENCE_STEPS`
abbrev pub is_evidence_step : Step → Bool
is_evidence_step Step.retriever = true
is_evidence_step Step.web = true
is_evidence_step web_unavailable = true
is_evidence_step data_sql = true
is_evidence_step data_unavailable = true
is_evidence_step _ = false

unfoldable pub has_gathered : List Step → Bool
has_gathered steps = any is_evidence_step steps

abbrev pub route_eq : RouteName → RouteName → Bool
route_eq retriever retriever = true
route_eq web web = true
route_eq analytics analytics = true
route_eq finish finish = true
route_eq _ _ = false

-- `route in routes`
unfoldable pub member : RouteName → List RouteName → Bool
member r routes = any (route_eq r) routes

-- `sorted(routes)` of a set of names: "data", "finish", "retriever", "web".
unfoldable pub sorted : List RouteName → List RouteName
sorted routes = filter (λ r. member r routes) (analytics ∷ finish ∷ retriever ∷ web ∷ [])

-- Whether a step is the one that a route's agent records when it has run.
abbrev pub is_sql_step : Step → Bool
is_sql_step data_sql = true
is_sql_step _ = false

abbrev pub is_retriever_step : Step → Bool
is_retriever_step Step.retriever = true
is_retriever_step _ = false

abbrev pub is_web_step : Step → Bool
is_web_step Step.web = true
is_web_step _ = false

abbrev numeric_words : List Text
numeric_words =
    codes "how many"
    ∷ codes "average"
    ∷ codes "total"
    ∷ codes "revenue"
    ∷ codes "customers"
    ∷ codes "highest"
    ∷ []

-- The name of a route as the model writes it.
route_of_name : Text → Option RouteName
route_of_name t =
    if text_eq t (codes "retriever")
    then some retriever
    else if text_eq t (codes "web")
    then some web
    else if text_eq t (codes "data")
    then some analytics
    else if text_eq t (codes "finish")
    then some finish
    else none

-- `parsed.get("next") if isinstance(parsed, dict) else None`, as far as it is a route's name.
next_route : Json → Option RouteName
unfolding get_field route_of_name
next_route (object fields) = elim (get_field (codes "next") fields) [
  | some (str t) ↦ route_of_name t
  | _ ↦ none
]
next_route _ = none

-- `lower` is `str.lower`, and `loads` is `json.loads`: `none` where it raises a `ValueError`.
module _ (lower : Text → Text) (loads : Text → Option Json) where
  unfoldable pub fallback_route : AgentState → List RouteName → RouteName
  unfolding member
  fallback_route state allowed =
      let question = lower state.question in
      if member analytics allowed
        && any (λ word. contains question word) numeric_words
        && not (any is_sql_step state.steps)
      then analytics
      else if member retriever allowed && not (any is_retriever_step state.steps)
      then retriever
      else if member web allowed && not (any is_web_step state.steps)
      then web
      else finish

  -- The route that a reply of the model names, if it is one of those offered.
  unfoldable pub parse_route : List RouteName → Text → Option RouteName
  unfolding next_route
  parse_route offered raw = elim (json_object raw) [
    | none ↦ none
    | some t ↦ elim (loads t) [
      | none ↦ none
      | some parsed ↦ elim (next_route parsed) [
        | none ↦ none
        | some route ↦ if member route offered then some route else none
      ]
    ]
  ]

  -- The routes offered: `finish` only once an evidence agent has run, or if none is allowed.
  unfoldable pub offer : AgentState → List RouteName → List RouteName
  offer state [] = sorted (finish ∷ [])
  offer state (r ∷ allowed) =
      if not (has_gathered state.steps)
      then sorted (r ∷ allowed)
      else sorted ((r ∷ allowed) ++ finish ∷ [])

  or_fallback : AgentState → List RouteName → Option RouteName → RouteName
  or_fallback state allowed none = fallback_route state allowed
  or_fallback state allowed (some route) = route

  -- What the `try` makes of the model's reply. Of its `except` clauses the first raises a permanent
  -- refusal again, and the rest fall through to the deterministic route.
  unfoldable pub routed : AgentState → List RouteName → Outcome Error Text → Outcome Error RouteName
  unfolding or_fallback
  routed state allowed (ok raw) =
      ok (or_fallback state allowed (parse_route (offer state allowed) raw))
  routed state allowed (raise (provider_error true)) = raise (provider_error true)
  routed state allowed (raise other_error) = raise other_error
  routed state allowed (raise _) = ok (fallback_route state allowed)

  module _ {W : Type 0} (generate : Prompt → Action W Text) where
    unfoldable pub choose_route : AgentState → List RouteName → ℕ → Action W RouteName
    choose_route state allowed max_steps w =
        let prompt = route_prompt (offer state allowed) state.question state.steps state.memory in
        let (reply, w') = generate prompt w in
        if leb max_steps (length state.steps)
        then (ok finish, w)
        else (routed state allowed reply, w')

-- ===== src/Agents/Supervisor/Routing.antt =====
-- What `choose_route` may answer, whatever the model replies.
use multi_agent_ai_analyst.Prelude.{
  ℕ, ◌<◌, ◌≡◌, ◌⊎◌, Bool, true, false, List, [], ◌∷◌, Option, some, Outcome, ok, raise, any, ◌≤◌,
  ◌↔◌, filter, length, arith, ◌||◌, ◌++◌,
}
use multi_agent_ai_analyst.Prelude.Text.{Text}
use multi_agent_ai_analyst.Json.{Json}
use multi_agent_ai_analyst.Agents.State.{
  RouteName, retriever, finish, Step, AgentState, Error, provider_error, other_error,
}
use multi_agent_ai_analyst.Agents.Action.{Action}
use multi_agent_ai_analyst.Agents.Supervisor.{
  Prompt, is_retriever_step, is_evidence_step, has_gathered, member, sorted, fallback_route,
  parse_route, offer, routed, choose_route, route_eq, route_prompt,
}

any_mono :
    (p q : Step → Bool)
    → ((s : Step) → p s ≡ true → q s ≡ true)
    → (steps : List Step) → any p steps ≡ true
    → any q steps ≡ true
unfolding any
any_mono p q h [] e = cc
any_mono p q h (s ∷ steps) e = ground (arith, h s, any_mono p q h steps)

retriever_is_evidence : (s : Step) → is_retriever_step s ≡ true → is_evidence_step s ≡ true
retriever_is_evidence s h = ground arith

retrieved_has_gathered :
    (steps : List Step) → any is_retriever_step steps ≡ true → has_gathered steps ≡ true
unfolding has_gathered
retrieved_has_gathered = any_mono is_retriever_step is_evidence_step retriever_is_evidence

member-sorted :
    (r : RouteName) (routes : List RouteName) → member r (sorted routes) ≡ member r routes
unfolding sorted filter member any
member-sorted retriever routes = ground arith
member-sorted _ routes = ground arith

member-append_finish :
    (r : RouteName) (routes : List RouteName)
    → member r (routes ++ finish ∷ []) ≡ member r routes || route_eq r finish
unfolding member any
member-append_finish r [] = ground arith
member-append_finish r (s ∷ routes) = ground (arith, member-append_finish r routes)

route_eq→eq : (r s : RouteName) → route_eq r s ≡ true → r ≡ s
route_eq→eq r s h = ground arith

member_finish : (r : RouteName) → member r (finish ∷ []) ≡ true → r ≡ finish
unfolding member any
member_finish r h = ground arith

module _ (lower : Text → Text) (loads : Text → Option Json) where
  -- Offered is what is allowed, and `finish` where evidence was gathered or nothing is allowed.
  offer_iff :
      (state : AgentState) (allowed : List RouteName) (r : RouteName)
      → member r (offer lower loads state allowed) ≡ true
      → (member r allowed ≡ true)
        ⊎ ((r ≡ finish) × ((has_gathered state.steps ≡ true) ⊎ (allowed ≡ [])))
  unfolding offer
  offer_iff state [] r h = ground (arith, member-sorted r (finish ∷ []), member_finish r)
  offer_iff state (a ∷ allowed) r h = ground (
    arith,
    member-sorted r (a ∷ allowed),
    member-sorted r ((a ∷ allowed) ++ finish ∷ []),
    member-append_finish r (a ∷ allowed),
    route_eq→eq r finish,
  )

  parse_route-offered :
      (offered : List RouteName) (raw : Text) (r : RouteName)
      → parse_route lower loads offered raw ≡ some r
      → member r offered ≡ true
  unfolding parse_route
  parse_route-offered offered raw r h = ground arith

  fallback-allowed :
      (state : AgentState) (allowed : List RouteName)
      → (fallback_route lower loads state allowed ≡ finish)
        ⊎ (member (fallback_route lower loads state allowed) allowed ≡ true)
  unfolding fallback_route
  fallback-allowed state allowed = ground arith

  -- The fallback finishes only when the retriever has run, if it is allowed.
  fallback-finish :
      (state : AgentState) (allowed : List RouteName)
      → member retriever allowed ≡ true
      → fallback_route lower loads state allowed ≡ finish
      → has_gathered state.steps ≡ true
  unfolding fallback_route
  fallback-finish state allowed h e = ground (arith, retrieved_has_gathered state.steps)

  routed-allowed :
      (state : AgentState) (allowed : List RouteName) (reply : Outcome Error Text) (r : RouteName)
      → routed lower loads state allowed reply ≡ ok r
      → (r ≡ finish) ⊎ (member r allowed ≡ true)
  unfolding routed
  routed-allowed state allowed (ok raw) r h = ground (
    arith,
    fallback-allowed state allowed,
    offer_iff state allowed r,
    parse_route-offered (offer lower loads state allowed) raw r,
  )
  routed-allowed state allowed (raise e) r h = ground (arith, fallback-allowed state allowed)

  not-nil : (allowed : List RouteName) → member retriever allowed ≡ true → ¬ (allowed ≡ [])
  unfolding member any
  not-nil [] h = cc
  not-nil (a ∷ allowed) h = λ e. cc

  routed-finish :
      (state : AgentState) (allowed : List RouteName) (reply : Outcome Error Text)
      → member retriever allowed ≡ true
      → member finish allowed ≡ false
      → routed lower loads state allowed reply ≡ ok finish
      → has_gathered state.steps ≡ true
  unfolding routed
  routed-finish state allowed (ok raw) may no_finish h = ground (
    arith,
    fallback-finish state allowed,
    offer_iff state allowed finish,
    not-nil allowed,
    parse_route-offered (offer lower loads state allowed) raw finish,
  )
  routed-finish state allowed (raise e) may no_finish h =
      ground (arith, fallback-finish state allowed)

  module _ {W : Type 0} (generate : Prompt → Action W Text) where
    abbrev pub reply_to : AgentState → List RouteName → W → Outcome Error Text
    reply_to state allowed w =
        (generate
          (route_prompt (offer lower loads state allowed) state.question state.steps state.memory)
          w).0

    -- Whatever the model replies, a route that is returned is one of those allowed, or `finish`.
    pub choose_route-allowed :
        (state : AgentState) (allowed : List RouteName) (max_steps : ℕ) (w : W) {r : RouteName}
        → (choose_route lower loads generate state allowed max_steps w).0 ≡ ok r
        → (r ≡ finish) ⊎ (member r allowed ≡ true)
    unfolding choose_route
    choose_route-allowed state allowed max_steps w {r} h =
        ground (arith, routed-allowed state allowed (reply_to state allowed w) r)

    -- Below the limit on steps, a run that may use the retriever is sent to the answer only after an
    -- evidence agent has run, whatever the model replies or however it fails.
    pub choose_route-finish :
        (state : AgentState) (allowed : List RouteName) (max_steps : ℕ) (w : W)
        → member retriever allowed ≡ true
        → member finish allowed ≡ false
        → length state.steps < max_steps
        → (choose_route lower loads generate state allowed max_steps w).0 ≡ ok finish
        → has_gathered state.steps ≡ true
    unfolding choose_route
    choose_route-finish state allowed max_steps w may no_finish below h =
        ground (arith, routed-finish state allowed (reply_to state allowed w))

    -- At the limit on steps the route is `finish`, and the model is not called.
    pub choose_route-limit :
        (state : AgentState) (allowed : List RouteName) (max_steps : ℕ) (w : W)
        → max_steps ≤ length state.steps
        → choose_route lower loads generate state allowed max_steps w ≡ (ok finish, w)
    unfolding choose_route
    choose_route-limit state allowed max_steps w h = ground arith

    -- The router raises exactly when it is below the limit on steps and the model's call raised a
    -- permanent refusal or an exception outside the kinds that it absorbs.
    pub choose_route-raise_iff :
        (state : AgentState) (allowed : List RouteName) (max_steps : ℕ) (w : W) (e : Error)
        → ((choose_route lower loads generate state allowed max_steps w).0 ≡ raise e) ↔ (
            (length state.steps < max_steps)
            × ((e ≡ provider_error true) ⊎ (e ≡ other_error))
            × (reply_to state allowed w ≡ raise e))
    unfolding choose_route routed
    choose_route-raise_iff state allowed max_steps w e = (λ h. ground arith, λ h. ground arith)

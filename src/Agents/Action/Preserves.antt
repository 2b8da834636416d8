-- ===== src/Agents/Action/Preserves.antt =====
-- What an action keeps true of the state of the services, whether it returns or raises.
use multi_agent_ai_analyst.Prelude.{Outcome, ok, raise}
use multi_agent_ai_analyst.Agents.State.{Error}
use multi_agent_ai_analyst.Agents.Action.{Action, pure, throw, lift, attempt, ◌>>=◌}

pub record Preserves {W A : Type 0} (I : W → Type 0) (m : Action W A) : Type 0 where
  pub at : (w : W) → I w → I (m w).1

module _ {W A : Type 0} {I : W → Type 0} where
  pub Preserves-pure : (a : A) → Preserves I (pure a)
  unfolding pure
  Preserves-pure a = record { at = λ w h. h }

  pub Preserves-throw : (e : Error) → Preserves I (throw {A = A} e)
  unfolding throw
  Preserves-throw e = record { at = λ w h. h }

  pub Preserves-lift : (r : Outcome Error A) → Preserves I (lift r)
  unfolding lift
  Preserves-lift r = record { at = λ w h. h }

module _ {W A B : Type 0} {I : W → Type 0} where
  pub Preserves-attempt :
      (m : Action W A) (f : A → Action W B) (h : Error → Action W B)
      → Preserves I m
      → ((a : A) → Preserves I (f a))
      → ((e : Error) → Preserves I (h e))
      → Preserves I (attempt m f h)
  unfolding attempt
  Preserves-attempt m f h km kf kh = record { at = λ w i. go (m w).0 (m w).1 (km.at w i) }
    where
      go :
          (r : Outcome Error A) (w : W)
          → I w
          → I (let x : Outcome Error B × W = elim r [ ok a ↦ f a w | raise e ↦ h e w ] in x.1)
      go (ok a) w i = (kf a).at w i
      go (raise e) w i = (kh e).at w i

  pub Preserves-bind :
      (m : Action W A) (f : A → Action W B)
      → Preserves I m
      → ((a : A) → Preserves I (f a))
      → Preserves I (m >>= f)
  unfolding ◌>>=◌ throw
  Preserves-bind m f km kf = Preserves-attempt m f throw km kf (λ e. record { at = λ w h. h })

pub ruleset preserves_rules =
    (Preserves-pure, Preserves-throw, Preserves-lift, Preserves-attempt, Preserves-bind)

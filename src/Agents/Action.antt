-- ===== src/Agents/Action.antt =====
-- Code that calls outside services and may raise. `W` is the state of those services: a call reads
-- and changes it, whether it returns or raises.
pub mod Ensures
pub mod Preserves
pub mod Triple
use multi_agent_ai_analyst.Prelude.{Outcome, ok, raise}
use multi_agent_ai_analyst.Agents.State.{Error}

abbrev pub Action : Type 0 → Type 0 → Type 0
Action W A = W → Outcome Error A × W

module _ {W A : Type 0} where
  unfoldable pub pure : A → Action W A
  pure a w = (ok a, w)

  unfoldable pub throw : Error → Action W A
  throw e w = (raise e, w)

  unfoldable pub lift : Outcome Error A → Action W A
  lift r w = (r, w)

module _ {W A B : Type 0} where
  -- `try: a = m … except`: what follows for a value, and the handler of the exception.
  unfoldable pub attempt : Action W A → (A → Action W B) → (Error → Action W B) → Action W B
  attempt m f h w = let (r, w') = m w in elim r [ ok a ↦ f a w' | raise e ↦ h e w' ]

  infixl 5 ◌>>=◌ ◌>>◌
  -- To open this opens the actions above too.
  unfoldable pub ◌>>=◌ : Action W A → (A → Action W B) → Action W B
  unfolding attempt pure throw lift
  m >>= f = attempt m f throw

  abbrev pub ◌>>◌ : Action W A → Action W B → Action W B
  m >> k = m >>= λ _. k

-- ===== src/Agents/Action/Triple.antt =====
-- Hoare triples: what an action that starts from `P` makes true when it returns, and when it raises.
use multi_agent_ai_analyst.Prelude.{Outcome, ok, raise, ◌≡◌, refl}
use multi_agent_ai_analyst.Agents.State.{Error}
use multi_agent_ai_analyst.Agents.Action.{Action, throw, attempt, ◌>>=◌}
use multi_agent_ai_analyst.Agents.Action.Preserves.{Preserves}

abbrev pub After :
    {W A : Type 0} → (A → W → Type 0) → (Error → W → Type 0) → Outcome Error A × W → Type 0
After Q E (ok a, w) = Q a w
After Q E (raise e, w) = E e w

pub record Triple {W A : Type 0} (P : W → Type 0) (m : Action W A) (Q : A → W → Type 0)
    (E : Error → W → Type 0) : Type 0 where
  pub at : (w : W) → P w → After Q E (m w)

After-same :
    {W A : Type 0} (I : W → Type 0) (r : Outcome Error A) (w : W)
    → I w
    → After (λ a. I) (λ e. I) (r, w)
After-same I (ok a) w h = h
After-same I (raise e) w h = h

pub Triple-Preserves :
    {W A : Type 0} (I : W → Type 0) (m : Action W A) → Preserves I m → Triple I m (λ a. I) (λ e. I)
Triple-Preserves I m k = record { at = λ w h. After-same I (m w).0 (m w).1 (k.at w h) }

module _ {W A B : Type 0} {P : W → Type 0} {Q : B → W → Type 0} {E : Error → W → Type 0} where
  pub Triple-attempt :
      (M : A → W → Type 0) (F : Error → W → Type 0) (m : Action W A) (f : A → Action W B)
      (g : Error → Action W B)
      → Triple P m M F
      → ((a : A) → Triple (M a) (f a) Q E)
      → ((e : Error) → Triple (F e) (g e) Q E)
      → Triple P (attempt m f g) Q E
  unfolding attempt
  Triple-attempt M F m f g km kf kg = record { at = λ w p. go (m w).0 (m w).1 (km.at w p) }
    where
      go :
          (r : Outcome Error A) (w : W)
          → After M F (r, w)
          → After Q E (let x : Outcome Error B × W = elim r [ ok a ↦ f a w | raise e ↦ g e w ] in x)
      go (ok a) w h = (kf a).at w h
      go (raise e) w h = (kg e).at w h

  pub Triple-bind :
      (M : A → W → Type 0) (m : Action W A) (f : A → Action W B)
      → Triple P m M E
      → ((a : A) → Triple (M a) (f a) Q E)
      → Triple P (m >>= f) Q E
  unfolding ◌>>=◌ throw
  Triple-bind M m f km kf = Triple-attempt M E m f throw km kf (λ e. record { at = λ w h. h })

module _ {W A : Type 0} (Q : A → W → Type 0) where
  pub After-ok :
      (E : Error → W → Type 0) (a : A) (r : Outcome Error A) (w : W)
      → r ≡ ok a
      → Q a w
      → After Q E (r, w)
  After-ok E a r w e h = rw e h

  -- An action that never raises here returns.
  pub After-returns :
      (r : Outcome Error A) (w : W) → After Q (λ e w. ⊥) (r, w) → (a : A) × (r ≡ ok a) × Q a w
  After-returns (ok a) w h = (a, refl, h)
  After-returns (raise e) w h = absurd h

  pub After-mono :
      (E : Error → W → Type 0) (Q' : A → W → Type 0) (r : Outcome Error A) (w : W)
      → ((a : A) (w : W) → Q' a w → Q a w)
      → After Q' E (r, w)
      → After Q E (r, w)
  After-mono E Q' (ok a) w k h = k a w h
  After-mono E Q' (raise e) w k h = h

-- ===== src/Agents/Action/Ensures.antt =====
-- What holds of every value that an action returns, with a rule for each way to build one.
use multi_agent_ai_analyst.Prelude.{◌≡◌, refl, Outcome, ok, raise}
use multi_agent_ai_analyst.Agents.State.{Error}
use multi_agent_ai_analyst.Agents.Action.{Action, pure, throw, lift, attempt, ◌>>=◌}

pub record Ensures {W A : Type 0} (P : A → Type 0) (m : Action W A) : Type 0 where
  pub at : (w : W) (a : A) → (m w).0 ≡ ok a → P a

-- An action that in some state returns the value, or raises the exception.
abbrev pub Returns : {W A : Type 0} → Action W A → A → Type 0
Returns {W} m a = (w : W) × ((m w).0 ≡ ok a)

abbrev pub Fails : {W A : Type 0} → Action W A → Error → Type 0
Fails {W} m e = (w : W) × ((m w).0 ≡ raise e)

pub Ensures-Returns : {W A : Type 0} (m : Action W A) → Ensures (Returns m) m
Ensures-Returns m = record { at = λ w a e. (w, e) }

module _ {W A : Type 0} {P : A → Type 0} where
  pub Ensures-pure : (a : A) → P a → Ensures P (pure {W = W} a)
  unfolding pure
  Ensures-pure a h = record { at = λ w b e. let q : a ≡ b = cc in rw q at h }

  pub Ensures-throw : (e : Error) → Ensures P (throw {W = W} e)
  unfolding throw
  Ensures-throw e = record { at = λ w b h. cc }

  pub Ensures-lift : (r : Outcome Error A) → ((a : A) → r ≡ ok a → P a) → Ensures P (lift {W = W} r)
  unfolding lift
  Ensures-lift r h = record { at = λ w a e. h a e }

module _ {W A B : Type 0} {P : B → Type 0} where
  -- What follows may use what the attempt returned, and the handler what it raised.
  pub Ensures-attempt-Returns :
      (m : Action W A) (f : A → Action W B) (h : Error → Action W B)
      → ((a : A) → Returns m a → Ensures P (f a))
      → ((e : Error) → Fails m e → Ensures P (h e))
      → Ensures P (attempt m f h)
  unfolding attempt
  Ensures-attempt-Returns m f h kf kh = record { at = λ w b e. go w (m w).0 (m w).1 refl b e }
    where
      go :
          (w : W) (r : Outcome Error A) (w' : W)
          → (m w).0 ≡ r
          → (b : B)
          → (let x : Outcome Error B × W = elim r [ ok a ↦ f a w' | raise e ↦ h e w' ] in x.0)
            ≡ ok b
          → P b
      go w (ok a) w' called b e = (kf a (w, called)).at w' b e
      go w (raise x) w' called b e = (kh x (w, called)).at w' b e

  pub Ensures-attempt :
      (m : Action W A) (f : A → Action W B) (h : Error → Action W B)
      → ((a : A) → Ensures P (f a))
      → ((e : Error) → Ensures P (h e))
      → Ensures P (attempt m f h)
  Ensures-attempt m f h kf kh = Ensures-attempt-Returns m f h (λ a _. kf a) (λ e _. kh e)

  -- The rest may use what the first part ensures.
  pub Ensures-bind :
      (Q : A → Type 0) (m : Action W A) (f : A → Action W B)
      → Ensures Q m
      → ((a : A) → Q a → Ensures P (f a))
      → Ensures P (m >>= f)
  unfolding ◌>>=◌
  Ensures-bind Q m f km kf = record { at = λ w b e. go (m w).0 (m w).1 (km.at w) b e }
    where
      go :
          (r : Outcome Error A) (w : W)
          → ((a : A) → r ≡ ok a → Q a)
          → (b : B)
          → (let x : Outcome Error B × W = elim r [ ok a ↦ f a w | raise e ↦ (raise e, w) ] in x.0)
            ≡ ok b
          → P b
      go (ok a) w q b e = (kf a (q a refl)).at w b e
      go (raise x) w q b e = cc

  -- The rest may use what the first part returned.
  pub Ensures-call :
      (m : Action W A) (f : A → Action W B)
      → ((a : A) → Returns m a → Ensures P (f a))
      → Ensures P (m >>= f)
  Ensures-call m f kf = Ensures-bind (Returns m) m f (Ensures-Returns m) kf

  pub Ensures-then :
      (m : Action W A) (f : A → Action W B) → ((a : A) → Ensures P (f a)) → Ensures P (m >>= f)
  Ensures-then m f kf = Ensures-bind (λ _. Unit {0}) m f (record { at = λ w a e. tt }) (λ a _. kf a)

pub ruleset ensures_rules =
    (Ensures-pure, Ensures-throw, Ensures-lift, Ensures-attempt, Ensures-then)

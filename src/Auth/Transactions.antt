-- ===== src/Auth/Transactions.antt =====
-- The exceptions and the commit of a call of auth/service.py.
use multi_agent_ai_analyst.Prelude.{
  refl, ◌≡◌, Bool, true, false, Option, none, some, Outcome, ok, raise,
}
use multi_agent_ai_analyst.Auth.Rows.{AuthError}

-- `if refused: raise e`
abbrev pub guard : (refused : Bool) → AuthError → Outcome AuthError (Unit {0})
guard true e = raise e
guard false e = ok tt

-- `if not found: raise e`
abbrev pub require {ℓ} : {A : Type ℓ} → Option A → AuthError → Outcome AuthError A
require none e = raise e
require (some a) e = ok a

abbrev pub is_found {ℓ} : {A : Type ℓ} → Option A → Bool
is_found none = false
is_found (some a) = true

infixl 5 ◌>>=◌
unfoldable pub ◌>>=◌ {ℓ κ} :
    {A : Type ℓ} {B : Type κ}
    → Outcome AuthError A
    → (A → Outcome AuthError B)
    → Outcome AuthError B
raise e >>= k = raise e
ok a >>= k = k a

-- The result of a call that commits at its end only.
unfoldable pub transact {ℓ κ} :
    {A : Type ℓ} {D : Type κ} → D → Outcome AuthError (A × D) → Outcome AuthError A × D
transact db (raise e) = (raise e, db)
transact db (ok (a, db')) = (ok a, db')

-- What holds of the value of a call that does not raise.
pub record Yields {ℓ κ} {A : Type ℓ} (P : A → Type κ) (m : Outcome AuthError A) : Type (ℓ ⊔ κ) where
  pub at : (a : A) → m ≡ ok a → P a

pub Yields-ok {ℓ κ} : {B : Type ℓ} (P : B → Type κ) (b : B) → P b → Yields P (ok b)
Yields-ok P b h = record { at = λ a e. let same : b ≡ a = cc in rw same at h }

module _ {ℓ κ μ ν} {A : Type ℓ} {B : Type κ} (Q : A → Type ν) (P : B → Type μ) where
  -- The rest may use what the first part yields.
  pub Yields-using :
      (m : Outcome AuthError A) (k : A → Outcome AuthError B)
      → Yields Q m
      → ((a : A) → Q a → Yields P (k a))
      → Yields P (m >>= k)
  unfolding ◌>>=◌
  Yields-using (raise e) k q h = record { at = λ b g. cc }
  Yields-using (ok a) k q h = h a (q.at a refl)

pub Yields-bind {ℓ κ μ} :
    {A : Type ℓ} {B : Type κ} (P : B → Type μ) (m : Outcome AuthError A)
    (k : A → Outcome AuthError B)
    → ((a : A) → Yields P (k a))
    → Yields P (m >>= k)
Yields-bind P m k h = Yields-using (λ _. Unit {0}) P m k (record { at = λ a e. tt }) (λ a _. h a)

-- What holds of the tables before a call and after its commit holds after the call.
pub transact-Yields {ℓ κ μ} :
    {A : Type ℓ} {D : Type κ} (P : D → Type μ) (db : D) (m : Outcome AuthError (A × D))
    → P db
    → Yields (λ r. P r.1) m
    → P (transact db m).1
unfolding transact
transact-Yields P db (raise e) before after = before
transact-Yields P db (ok (a, db')) before after = after.at (a, db') refl

pub Yields-require {ℓ} :
    {A : Type ℓ} (o : Option A) (e : AuthError) → Yields (λ a. o ≡ some a) (require o e)
Yields-require none e = record { at = λ a h. cc }
Yields-require (some b) e = Yields-ok (λ a. some b ≡ some a) b refl

pub Yields-guard : (b : Bool) (e : AuthError) → Yields (λ _. b ≡ false) (guard b e)
Yields-guard true e = record { at = λ a h. cc }
Yields-guard false e = record { at = λ a h. refl }

-- What holds of the exception of a call that raises.
pub record Raises {ℓ κ} {A : Type ℓ} (P : AuthError → Type κ) (m : Outcome AuthError A)
    : Type (ℓ ⊔ κ) where
  pub at : (e : AuthError) → m ≡ raise e → P e

module _ {ℓ μ} {A : Type ℓ} (P : AuthError → Type μ) where
  pub Raises-ok : (a : A) → Raises {A = A} P (ok a)
  Raises-ok a = record { at = λ e h. cc }

  pub Raises-raise : (e : AuthError) → P e → Raises {A = A} P (raise e)
  Raises-raise e p = record { at = λ d h. let same : e ≡ d = cc in rw same at p }

  pub Raises-require : (o : Option A) (e : AuthError) → P e → Raises P (require o e)
  Raises-require none e p = Raises-raise e p
  Raises-require (some b) e p = Raises-ok b

pub Raises-bind {ℓ κ μ} :
    {A : Type ℓ} {B : Type κ} (P : AuthError → Type μ) (m : Outcome AuthError A)
    (k : A → Outcome AuthError B)
    → Raises P m
    → ((a : A) → Raises P (k a))
    → Raises P (m >>= k)
unfolding ◌>>=◌
Raises-bind P (raise e) k first rest = record {
  at = λ d h. let same : e ≡ d = cc in rw same at (first.at e refl);
}
Raises-bind P (ok a) k first rest = rest a

pub Raises-guard {κ} :
    (P : AuthError → Type κ) (b : Bool) (e : AuthError) → P e → Raises P (guard b e)
Raises-guard P true e p = Raises-raise P e p
Raises-guard P false e p = Raises-ok P tt

-- What a call yields, its commit stores.
pub transact-ok {ℓ κ μ} :
    {A : Type ℓ} {D : Type κ} (P : A × D → Type μ) (db : D) (m : Outcome AuthError (A × D)) (a : A)
    → Yields P m
    → (transact db m).0 ≡ ok a
    → P (a, (transact db m).1)
unfolding transact
transact-ok P db (raise e) a m-yields h = cc
transact-ok P db (ok (b, db')) a m-yields h =
    let same : b ≡ a = cc in rw (← same) (m-yields.at (b, db') refl)

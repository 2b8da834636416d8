-- ===== src/Auth/Failures.antt =====
-- How signing in, refreshing and reading an access token fail.
use multi_agent_ai_analyst.Prelude.{◌∷◌, [], ℕ, ◌≡◌, refl, Option, none, some, Outcome, ok, raise}
use multi_agent_ai_analyst.Prelude.Text.{Text}
use multi_agent_ai_analyst.Auth.Rows.{Db, Principal, AuthError, authentication}
use multi_agent_ai_analyst.Auth.Credentials.{Site, Draws, jwt_secret}
use multi_agent_ai_analyst.Auth.Transactions.{
  transact, Raises, Raises-ok, Raises-bind, Raises-require, Raises-guard, Raises-raise,
}
use multi_agent_ai_analyst.Auth.Sessions.{issue_session}
use multi_agent_ai_analyst.Auth.Login.{login, login_email}

abbrev IsAuthentication : AuthError → Type 0
IsAuthentication e = e ≡ authentication

jwt_secret-Raises : (o : Option Text) → Raises IsAuthentication (jwt_secret o)
unfolding jwt_secret
jwt_secret-Raises none = Raises-raise _ authentication refl
jwt_secret-Raises (some []) = Raises-raise _ authentication refl
jwt_secret-Raises (some (c ∷ t)) = Raises-ok _ _

login_email-Raises : (r : Outcome AuthError Text) → Raises IsAuthentication (login_email r)
login_email-Raises (raise e) = Raises-raise _ authentication refl
login_email-Raises (ok email) = Raises-ok _ _

ruleset raising =
    (Raises-bind, Raises-ok, Raises-require, Raises-guard, jwt_secret-Raises, login_email-Raises)

-- A call that raises before its commit leaves the tables as they were.
transact-Raises {ℓ κ} :
    {A : Type ℓ} {D : Type κ} (db : D) (m : Outcome AuthError (A × D)) (e : AuthError)
    → Raises IsAuthentication m
    → (transact db m).0 ≡ raise e
    → (e ≡ authentication) × ((transact db m).1 ≡ db)
unfolding transact
transact-Raises db (raise d) e r h = let same : d ≡ e = cc in (rw (← same) (r.at d refl), refl)
transact-Raises db (ok (a, db')) e r h = cc

module _ (site : Site) where
  open site use {tables}

  issue_session-Raises :
      (draws : Draws) (principal : Principal) (db : Db tables)
      → Raises IsAuthentication (issue_session site draws principal db)
  unfolding issue_session
  issue_session-Raises draws principal db = search raising depth 8

  -- However a sign-in fails, whether for the address, the account, the password, the membership or the
  -- settings, it is with one exception, `AuthenticationError`, and nothing is stored.
  pub login_raises :
      (draws : Draws) (email password : Text) (organization_id : Option ℕ) (db : Db tables)
      (e : AuthError)
      → (login site draws email password organization_id db).0 ≡ raise e
      → (e ≡ authentication) × ((login site draws email password organization_id db).1 ≡ db)
  unfolding login
  login_raises draws email password organization_id db e =
      transact-Raises db _ e (search (raising, issue_session-Raises) depth 16)

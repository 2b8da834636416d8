-- ===== src/Auth/Resets.antt =====
-- What the reset of a password does to the sessions of the account, and to the link.
use mathlib.Core.Path.{sym, ◌∙◌}
use mathlib.Core.Option.{some-injective}
use multi_agent_ai_analyst.Prelude.{
  inr, inl, ℕ, ◌≡◌, refl, Bool, true, not, ◌&&◌, List, some, ok, raise, arith, ◌==◌, Option-cases,
  first-filter, ==_iff,
}
use multi_agent_ai_analyst.Prelude.Text.{Text, text_eq}
use multi_agent_ai_analyst.Database.{change_where}
use multi_agent_ai_analyst.Database.Queries.{first-change}
use multi_agent_ai_analyst.Auth.Rows.{User, RefreshSession, PasswordResetToken, Db, invitation}
use multi_agent_ai_analyst.Auth.Credentials.{Site, Draws, is_set}
use multi_agent_ai_analyst.Auth.Transactions.{
  ◌>>=◌, transact, Yields-ok, Yields-using, Yields-bind, Yields-require, transact-ok,
}
use multi_agent_ai_analyst.Auth.Sessions.{session_by_id, revoked, record_audit, user_by_id}
use multi_agent_ai_analyst.Auth.Passwords.{reset_password, reset_by_hash, store_password}
use multi_agent_ai_analyst.Auth.Lineage.Rounds.{rows_of}
use multi_agent_ai_analyst.Auth.Replay.{by_id-change}

abbrev open_of : ℕ → RefreshSession → Bool
open_of user_id s = s.user_id == user_id && not (is_set s.revoked_at)

abbrev consumed : ℕ → PasswordResetToken → PasswordResetToken
consumed now r = record r { consumed_at = some now }

user_by_id-id :
    (site : Site) (id : ℕ) (db : Db site.tables) (u : User)
    → user_by_id site id db ≡ some u
    → u.id ≡ id
unfolding user_by_id
user_by_id-id site id db u e = (==_iff u.id id).0 (first-filter (λ v. v.id == id) _ u e)

signed_out :
    (user_id n now : ℕ) (rows : List RefreshSession) (s : RefreshSession)
    → session_by_id n (change_where (open_of user_id) (revoked now) rows) ≡ some s
    → s.user_id ≡ user_id
    → is_set s.revoked_at ≡ true
signed_out user_id n now rows s e own =
    let changed = by_id-change n (open_of user_id) (revoked now) rows (λ r. refl) in
    elim (Option-cases (session_by_id n rows)) [
      | inl g ↦ ground (arith, changed, g, e)
      | inr (r, g) ↦ ground (arith, changed, g, e, own)
    ]

module _ (site : Site) where
  open site use {tables, platform}

  -- What a reset has stored.
  record IsReset (draws : Draws) (reset : PasswordResetToken) (db db' : Db tables) : Type 0 where
    sessions :
        rows_of site db'
        ≡ change_where (open_of reset.user_id) (revoked draws.issued_at) (rows_of site db)
    resets :
        tables.resets.rows db'.resets
        ≡ change_where
            (λ r. r.id == reset.id)
            (consumed draws.changed_at)
            (tables.resets.rows db.resets)

  reset_password-consumed :
      (draws : Draws) (token password : Text) (db : Db tables) (reset : PasswordResetToken)
      → reset_by_hash site (platform.sha256 token) db ≡ some reset
      → is_set reset.consumed_at ≡ true
      → reset_password site draws token password db ≡ (raise invitation, db)
  unfolding reset_password transact ◌>>=◌
  reset_password-consumed draws token password db reset found used = rw (found, used) refl

  reset_password-Yields :
      (draws : Draws) (token password : Text) (db : Db tables)
      → (reset_password site draws token password db).0 ≡ ok tt
      → (reset : PasswordResetToken) × (reset_by_hash site (platform.sha256 token) db ≡ some reset)
        × IsReset draws reset db (reset_password site draws token password db).1
  unfolding reset_password store_password record_audit
  reset_password-Yields draws token password db =
      transact-ok
        (λ q.
          (reset : PasswordResetToken) × (reset_by_hash site (platform.sha256 token) db
            ≡ some reset)
          × IsReset draws reset db q.1)
        db _ tt
        (Yields-using _ _ _ _
          (Yields-require (reset_by_hash site (platform.sha256 token) db) invitation)
          λ reset found. Yields-bind _ _ _ λ _.
            Yields-using _ _ _ _ (Yields-require (user_by_id site reset.user_id db) invitation)
              λ user known. Yields-bind _ _ _ λ _. Yields-bind _ _ _ λ hash.
                let own : user.id ≡ reset.user_id =
                  user_by_id-id site reset.user_id db user known in
                Yields-ok _ _ (
                  reset,
                  found,
                  (record {
                    sessions = rw (tables.sessions.rows-update _ _ _, own) refl;
                    resets = tables.resets.rows-update _ _ _;
                  }),
                ))

  -- When a reset is done, every session of its account that its id finds is revoked.
  pub reset_password-revoked :
      (draws : Draws) (token password : Text) (db : Db tables) (reset : PasswordResetToken) (n : ℕ)
      (s : RefreshSession)
      → reset_by_hash site (platform.sha256 token) db ≡ some reset
      → (reset_password site draws token password db).0 ≡ ok tt
      → session_by_id n (rows_of site (reset_password site draws token password db).1) ≡ some s
      → s.user_id ≡ reset.user_id
      → is_set s.revoked_at ≡ true
  reset_password-revoked draws token password db reset n s found done e own =
      let (reset', found', stored) = reset_password-Yields draws token password db done in
      let same : reset' ≡ reset = some-injective _ _ (sym found' ∙ found) in
      signed_out reset'.user_id n draws.issued_at (rows_of site db) s (rw stored.sessions at e)
        (rw same own)

  -- A link works once: when a reset is done, another with the same token raises and stores nothing.
  pub reset_password-twice :
      (draws draws' : Draws) (token password password' : Text) (db : Db tables)
      → (reset_password site draws token password db).0 ≡ ok tt
      → reset_password site draws' token password' (reset_password site draws token password db).1
        ≡ (raise invitation, (reset_password site draws token password db).1)
  unfolding reset_by_hash
  reset_password-twice draws draws' token password password' db done =
      let (reset, found, stored) = reset_password-Yields draws token password db done in
      reset_password-consumed draws' token password' _ (consumed draws.changed_at reset)
        (rw stored.resets (
          first-change (λ r. r.id) (λ r. text_eq r.token_hash (platform.sha256 token))
            (consumed draws.changed_at) _ reset (λ r. refl) found))
        refl

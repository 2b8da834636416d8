-- ===== src/Auth/Passwords.antt =====
-- auth/service.py: the reset of a password.
use multi_agent_ai_analyst.Prelude.{
  ℕ, ◌+◌, not, ◌&&◌, ◌||◌, [], Option, none, some, first, filter, Outcome, ok, raise, ◌==◌,
  if◌then◌else◌,
}
use multi_agent_ai_analyst.Prelude.Text.{Text, codes, text_eq}
use multi_agent_ai_analyst.Auth.Rows.{User, PasswordResetToken, Db, AuthError, invitation, minutes}
use multi_agent_ai_analyst.Auth.Credentials.{
  Site, Draws, is_set, normalize_email, hash_password, is_expired,
}
use multi_agent_ai_analyst.Auth.Sessions.{revoked, user_by_id, user_by_email, record_audit}
use multi_agent_ai_analyst.Auth.Transactions.{◌>>=◌, guard, require, transact}

module _ (site : Site) where
  open site use {tables, platform, settings}

  -- The address that a reset token is minted for: that of an active account.
  unfoldable pub resettable : Outcome AuthError Text → Db tables → Option User
  unfolding user_by_email
  resettable (raise e) db = none
  resettable (ok email) db = elim (user_by_email site email db) [
    | none ↦ none
    | some user ↦ if user.is_active then some user else none
  ]

  unfoldable pub mint_reset : Draws → Option User → Db tables → Option (Text × Text) × Db tables
  mint_reset draws none db = (none, db)
  mint_reset draws (some user) db = (
    some (user.email, draws.token),
    record db {
      resets =
          tables.resets.insert
            (record {
              id = draws.row_id;
              user_id = user.id;
              token_hash = platform.sha256 draws.token;
              expires_at = draws.issued_at + minutes settings.password_reset_expire_minutes;
              consumed_at = none;
              created_at = draws.stored_at;
            })
            db.resets;
    },
  )

  unfoldable pub request_password_reset :
      Draws → (email : Text) → Db tables → Option (Text × Text) × Db tables
  unfolding normalize_email resettable mint_reset
  request_password_reset draws email db =
      mint_reset draws (resettable (normalize_email platform email) db) db

  unfoldable pub reset_by_hash : Text → Db tables → Option PasswordResetToken
  reset_by_hash hash db =
      first (filter (λ r. text_eq r.token_hash hash) (tables.resets.rows db.resets))

  abbrev pub organization_of_user : (user_id : ℕ) → Db tables → Option ℕ
  organization_of_user user_id db =
      elim (first (filter (λ m. m.user_id == user_id) (tables.memberships.rows db.memberships))) [
        | none ↦ none
        | some m ↦ some m.organization_id
      ]

  -- The new password, the consumed token, and every open session of the user revoked.
  unfoldable pub store_password :
      Draws → (user_id reset_id : ℕ) → (password_hash : Text) → Db tables → Db tables
  store_password draws user_id reset_id password_hash db = record db {
    users =
        tables.users.update (λ u. u.id == user_id)
          (λ u. record u { password_hash = password_hash; updated_at = draws.stored_at }) db.users;
    resets =
        tables.resets.update (λ r. r.id == reset_id)
          (λ r. record r { consumed_at = some draws.changed_at }) db.resets;
    sessions =
        tables.sessions.update (λ s. s.user_id == user_id && not (is_set s.revoked_at))
          (revoked draws.issued_at) db.sessions;
  }

  unfoldable pub reset_password :
      Draws → (token password : Text) → Db tables → Outcome AuthError (Unit {0}) × Db tables
  unfolding reset_by_hash user_by_id hash_password store_password record_audit
  reset_password draws token password db = transact db (
      require (reset_by_hash (platform.sha256 token) db) invitation >>= λ reset.
      guard (is_set reset.consumed_at || is_expired draws.checked_at reset.expires_at) invitation
      >>= λ _. require (user_by_id site reset.user_id db) invitation >>= λ user.
          guard (not user.is_active) invitation >>= λ _.
          hash_password platform draws.salt password >>= λ hash. ok (
            tt,
            record_audit site draws (codes "auth.password_reset") (organization_of_user user.id db)
                (some user.id) (some user.id) [] (store_password draws user.id reset.id hash db),
          ))
